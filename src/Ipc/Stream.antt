-- ===== src/Ipc/Stream.antt =====
-- `byte_transport` of include/aviutl2_mcp/native_ipc_frame_codec.h, and the loops `read_exact` and
-- `write_all` of src/native_ipc_frame_codec.cpp over it. A transport is an interface: what a call
-- returns is up to the pipe, and the loops check it. The loops take fuel, and the `logic_error`
-- stands for running out of it.
pub mod Exact
use aviutl2mcp.Common.{
  ℕ, zero, suc, ◌+◌, ◌-◌, ◌≤◌, ◌<◌, ◌≡◌, Bool, true, false, ◌&&◌, ◌||◌, List, [], ◌∷◌, ◌++◌, Bytes,
  ltb, ◌==◌, if◌then◌else◌, length, take, drop, Exception, Result, ok, err, ◌>>=◌, ◌>>◌, throw_if,
  runtime_error, logic_error, stream_closed,
}

-- A call of `read_some` gives the count that it returns, what it stored in the buffer, and the
-- transport behind it.
pub record ByteTransport : Type 1 where
  pub State : Type 0
  pub read_some : State → ℕ → Result (ℕ × Bytes × State)
  pub write_some : State → Bytes → Result (ℕ × State)

abbrev pub ended_early : Exception
ended_early = runtime_error "IPC frame ended before the requested bytes were read"

abbrev pub bad_read_count : Exception
bad_read_count = runtime_error "IPC transport returned an invalid read count"

abbrev pub bad_write_count : Exception
bad_write_count = runtime_error "IPC transport returned an invalid write count"

module _ (transport : ByteTransport) where
  open transport use {State, read_some, write_some}

  -- The two tests behind a call of `read_some`.
  unfoldable pub check_read : (size offset read : ℕ) → Bool → Result (Unit {0})
  check_read size offset read allow_clean_end = do
    throw_if (read == 0 && (allow_clean_end && offset == 0)) stream_closed
    throw_if (read == 0) ended_early
    throw_if (ltb (size - offset) read) bad_read_count

  -- `buffer` holds the bytes below `offset`.
  unfoldable pub read_loop : ℕ → State → ℕ → Bytes → Bool → Result (Bytes × State)
  read_loop zero state size buffer allow_clean_end =
      if ltb (length buffer) size then err (logic_error "out of fuel") else ok (buffer, state)
  read_loop (suc fuel) state size buffer allow_clean_end =
      let more = (do
        (read, stored, state') ← read_some state (size - length buffer)
        check_read size (length buffer) read allow_clean_end
        read_loop fuel state' size (buffer ++ take read stored) allow_clean_end) in
      if ltb (length buffer) size then more else ok (buffer, state)

  -- Each round reads a byte at least.
  unfoldable pub read_exact : State → ℕ → Bool → Result (Bytes × State)
  read_exact state size allow_clean_end = read_loop size state size [] allow_clean_end

  -- `buffer` is the span behind `offset`.
  unfoldable pub write_loop : ℕ → State → Bytes → Result State
  write_loop fuel state [] = ok state
  write_loop zero state (b ∷ buffer) = err (logic_error "out of fuel")
  write_loop (suc fuel) state (b ∷ buffer) = do
    (written, state') ← write_some state (b ∷ buffer)
    throw_if (written == 0 || ltb (length (b ∷ buffer)) written) bad_write_count
    write_loop fuel state' (drop written (b ∷ buffer))

  unfoldable pub write_all : State → Bytes → Result State
  write_all state buffer = write_loop (length buffer) state buffer

  -- A transport that is a byte stream: a read takes at least one of the bytes to come, and none
  -- only at the end; a write passes at least one byte on.
  pub record IsStream (incoming outgoing : State → Bytes) : Type 0 where
    pub read_part :
        (state : State) (size : ℕ)
        → 0 < size
        → 0 < length (incoming state)
        → (read : ℕ) × (state' : State) × (read_some state size
            ≡ ok (read, take read (incoming state), state'))
          × (0 < read)
          × (read ≤ size)
          × (read ≤ length (incoming state))
          × (incoming state' ≡ drop read (incoming state))
    pub read_end :
        (state : State) (size : ℕ)
        → 0 < size
        → incoming state ≡ []
        → read_some state size ≡ ok (0, [], state)
    pub write_part :
        (state : State) (bytes : Bytes)
        → 0 < length bytes
        → (written : ℕ) × (state' : State) × (write_some state bytes ≡ ok (written, state'))
          × (0 < written)
          × (written ≤ length bytes)
          × (outgoing state' ≡ outgoing state ++ take written bytes)
