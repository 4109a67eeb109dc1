-- ===== src/Ipc/Stream/Exact.antt =====
-- `read_exact` and `write_all` over a stream transfer exactly the bytes asked for, however the
-- transport cuts them.
use aviutl2mcp.Common.{
  ℕ, zero, suc, ◌+◌, ◌-◌, ◌≤◌, ◌<◌, ◌≡◌, inl, inr, refl, sym, ap, ◌∙◌, Bool, true, false, ◌&&◌,
  ◌||◌, [], ◌∷◌, ◌++◌, Bytes, ltb, ◌==◌, if◌then◌else◌, length, take, drop, length-append,
  length-take, length-drop, take-append-drop, take-take, take_split, drop_split, append_assoc,
  append-nil, ok, err, stream_closed, arith, List-cases, is_empty, Exception,
}
use aviutl2mcp.Ipc.Stream.{
  ByteTransport, IsStream, ended_early, check_read, read_loop, read_exact, write_loop, write_all,
}

module _ (transport : ByteTransport) {incoming outgoing : transport.State → Bytes}
    (stream : IsStream transport incoming outgoing) where
  open transport use {State}

  check_read_pass :
      (size offset read : ℕ) (clean : Bool)
      → 0 < read
      → offset + read ≤ size
      → check_read transport size offset read clean ≡ ok tt
  unfolding check_read
  check_read_pass size offset read clean pos fits = ground arith

  read_loop_full :
      (fuel : ℕ) (state : State) (buffer : Bytes) (clean : Bool)
      → read_loop transport fuel state (length buffer) buffer clean ≡ ok (buffer, state)
  unfolding read_loop
  read_loop_full zero state buffer clean = ground arith
  read_loop_full (suc fuel) state buffer clean = ground arith

  read_loop_step :
      (fuel : ℕ) (state : State) (size want : ℕ) (buffer : Bytes) (clean : Bool) {read : ℕ}
      {stored : Bytes} {next : State}
      → size ≡ length buffer + want
      → 0 < read
      → read ≤ want
      → transport.read_some state want ≡ ok (read, stored, next)
      → read_loop transport (suc fuel) state size buffer clean
        ≡ read_loop transport fuel next size (buffer ++ take read stored) clean
  unfolding read_loop
  read_loop_step fuel state size want buffer clean {read} {stored} {next} e pos small call =
      let short : ltb (length buffer) size ≡ true = ground arith in
      let left : size - length buffer ≡ want = omega arith in
      rw (short, left, call, check_read_pass size (length buffer) read clean pos (omega arith))

  -- `want` is what the loop still has to read.
  read_loop-enough :
      (fuel : ℕ) (state : State) (size want : ℕ) (buffer : Bytes) (clean : Bool)
      → size ≡ length buffer + want
      → want ≤ fuel
      → want ≤ length (incoming state)
      → (state' : State) × (read_loop transport fuel state size buffer clean
          ≡ ok (buffer ++ take want (incoming state), state'))
        × (incoming state' ≡ drop want (incoming state))
  read_loop-enough fuel state size zero buffer clean e fueled enough =
      let same : size ≡ length buffer = omega arith in
      (state, rw (same, append-nil) (read_loop_full fuel state buffer clean), refl)
  read_loop-enough zero state size (suc want) buffer clean e fueled enough = absurd (omega arith)
  read_loop-enough (suc fuel) state size (suc want) buffer clean e fueled enough =
      let (read, next, call, pos, small, present, left) =
        stream.read_part state (suc want) (omega arith) (omega arith) in
      let grown : length (buffer ++ take read (incoming state)) ≡ length buffer + read = omega (
        arith,
        length-append buffer (take read (incoming state)),
        length-take read (incoming state),
      ) in
      let (last, result, rest) =
        read_loop-enough fuel next size (suc want - read) (buffer ++ take read (incoming state))
          clean (omega arith) (omega arith)
          (rw left (omega (arith, length-drop read (incoming state)))) in
      (
        last,
        read_loop_step fuel state size (suc want) buffer clean e pos small call
            ∙ rw take-take (
                result
                ∙ rw (left, append_assoc, take_split read (suc want) (incoming state) small)),
        rest ∙ rw left (drop_split read (suc want) (incoming state) small),
      )

  -- With enough bytes to come, `read_exact` stores exactly the next `size` of them, and leaves the rest.
  pub read_exact-take :
      (state : State) (size : ℕ) (clean : Bool)
      → size ≤ length (incoming state)
      → (state' : State) × (read_exact transport state size clean
          ≡ ok (take size (incoming state), state'))
        × (incoming state' ≡ drop size (incoming state))
  unfolding read_exact
  read_exact-take state size clean enough =
      read_loop-enough size state size size [] clean (omega arith) (omega arith) enough

  -- What `read_loop` throws when the stream ends: the clean end is one before the first byte.
  abbrev end_of_stream : Bytes → Bytes → Bool → Exception
  end_of_stream buffer bytes clean =
      if clean && (is_empty buffer && is_empty bytes) then stream_closed else ended_early

  read_loop_end :
      (fuel : ℕ) (state : State) (size want : ℕ) (buffer : Bytes) (clean : Bool)
      → size ≡ length buffer + suc want
      → incoming state ≡ []
      → read_loop transport (suc fuel) state size buffer clean ≡ err (end_of_stream buffer [] clean)
  unfolding read_loop check_read
  read_loop_end fuel state size want buffer clean e none =
      let short : ltb (length buffer) size ≡ true = ground arith in
      let left : size - length buffer ≡ suc want = omega arith in
      rw (short, left, stream.read_end state (suc want) (omega arith) none) (ground arith)

  -- After a first read the end is never clean.
  end_of_stream_grown :
      (buffer bytes rest : Bytes) (read : ℕ) (clean : Bool)
      → 0 < read
      → read ≤ length bytes
      → end_of_stream (buffer ++ take read bytes) rest clean ≡ end_of_stream buffer bytes clean
  end_of_stream_grown buffer [] rest read clean pos small = absurd (omega arith)
  end_of_stream_grown [] (b ∷ bytes) rest (suc read) clean pos small = ground arith
  end_of_stream_grown [] (b ∷ bytes) rest zero clean pos small = absurd (omega arith)
  end_of_stream_grown (a ∷ buffer) (b ∷ bytes) rest read clean pos small = ground arith

  read_loop-short :
      (fuel : ℕ) (state : State) (size want : ℕ) (buffer : Bytes) (clean : Bool)
      → size ≡ length buffer + want
      → want ≤ fuel
      → length (incoming state) < want
      → read_loop transport fuel state size buffer clean
        ≡ err (end_of_stream buffer (incoming state) clean)
  read_loop-short fuel state size zero buffer clean e fueled short = absurd (omega arith)
  read_loop-short zero state size (suc want) buffer clean e fueled short = absurd (omega arith)
  read_loop-short (suc fuel) state size (suc want) buffer clean e fueled short =
      elim (List-cases (incoming state)) [
        | inl none ↦ rw none (read_loop_end fuel state size want buffer clean e none)
        | inr some ↦
            let (read, next, call, pos, small, present, left) =
              stream.read_part state (suc want) (omega arith) some in
            let grown : length (buffer ++ take read (incoming state)) ≡ length buffer + read =
              omega (
                arith,
                length-append buffer (take read (incoming state)),
                length-take read (incoming state),
              ) in
            read_loop_step fuel state size (suc want) buffer clean e pos small call
            ∙ rw take-take (
                read_loop-short fuel next size (suc want - read)
                  (buffer ++ take read (incoming state)) clean (omega arith) (omega arith)
                  (rw left (omega (arith, length-drop read (incoming state))))
                ∙ ap err (
                    end_of_stream_grown buffer (incoming state) (incoming next) read clean pos
                      present))
      ]

  -- When the stream ends too soon, `read_exact` throws: `ipc_stream_closed` if a clean end is
  -- allowed and no byte came, and a runtime error otherwise.
  pub read_exact-short :
      (state : State) (size : ℕ) (clean : Bool)
      → length (incoming state) < size
      → read_exact transport state size clean
        ≡ err (if clean && is_empty (incoming state) then stream_closed else ended_early)
  unfolding read_exact
  read_exact-short state size clean short =
      read_loop-short size state size size [] clean (omega arith) (omega arith) short

  write_loop-append :
      (fuel : ℕ) (state : State) (bytes : Bytes)
      → length bytes ≤ fuel
      → (state' : State) × (write_loop transport fuel state bytes ≡ ok state')
        × (outgoing state' ≡ outgoing state ++ bytes)
  unfolding write_loop
  write_loop-append fuel state [] h = (state, refl, sym (append-nil (outgoing state)))
  write_loop-append zero state (b ∷ bytes) h = absurd (omega arith)
  write_loop-append (suc fuel) state (b ∷ bytes) h =
      let (written, next, call, pos, small, sent) =
        stream.write_part state (b ∷ bytes) (omega arith) in
      let (last, result, out) =
        write_loop-append fuel next (drop written (b ∷ bytes))
          (omega (arith, length-drop written (b ∷ bytes))) in
      let good : (written == 0 || ltb (length (b ∷ bytes)) written) ≡ false = ground arith in
      (last, rw (call, good) result, out ∙ rw (sent, append_assoc, take-append-drop))

  -- `write_all` passes every byte on, in order, and never throws.
  pub write_all-append :
      (state : State) (bytes : Bytes)
      → (state' : State) × (write_all transport state bytes ≡ ok state')
        × (outgoing state' ≡ outgoing state ++ bytes)
  unfolding write_all
  write_all-append state bytes = write_loop-append (length bytes) state bytes (omega arith)
