-- ===== src/RingLog/Retention.antt =====
-- Which entries the ring of native_ring_logger.cpp holds after any calls of `write`.
use aviutl2mcp.Common.{
  ℕ, zero, suc, ◌+◌, ◌-◌, ◌%◌, ◌^◌, ◌≤◌, ◌<◌, ◌≡◌, refl, sym, ap, subst, ◌∙◌, ◌||◌, List, [], ◌∷◌,
  ◌++◌, ltb, ◌==◌, if◌then◌else◌, length, drop, is_empty, append_assoc, append-nil, length-append,
  length-drop, All, Bool-cases, inl, inr, arith, ok,
}
use aviutl2mcp.RingLog.{LogEntry, RingLogger, create, make_room, push_entry, write}
use aviutl2mcp.RingLog.Paging.{Increasing}

unfoldable pub write_each : List LogEntry → RingLogger → RingLogger
write_each [] logger = logger
write_each (entry ∷ entries) logger = write_each entries (write entry logger)

-- The entries that `write` logs, and what they are with sequence numbers from `first` on.
unfoldable pub logged : List LogEntry → List LogEntry
logged [] = []
logged (entry ∷ entries) =
    let rest = logged entries in
    if is_empty entry.component || is_empty entry.event_id then rest else entry ∷ rest

unfoldable pub numbered : ℕ → List LogEntry → List LogEntry
numbered first [] = []
numbered first (entry ∷ entries) = record entry { sequence = first } ∷ numbered (suc first) entries

length-numbered :
    (first : ℕ) (entries : List LogEntry) → length (numbered first entries) ≡ length entries
unfolding numbered
length-numbered first [] = refl
length-numbered first (entry ∷ entries) = ground (arith, length-numbered (suc first) entries)

numbered_push :
    (first : ℕ) (entries : List LogEntry) (entry : LogEntry)
    → numbered first (entries ++ (entry ∷ []))
      ≡ numbered first entries ++ (record entry { sequence = first + length entries } ∷ [])
unfolding numbered
numbered_push first [] entry = ap (λ n. record entry { sequence = n } ∷ []) (omega arith)
numbered_push first (e ∷ entries) entry =
    ap (λ rest. record e { sequence = first } ∷ rest)
      (numbered_push (suc first) entries entry
        ∙ ap (λ n. numbered (suc first) entries ++ (record entry { sequence = n } ∷ []))
            (omega arith))

drop-push :
    {A : Type 0} (n : ℕ) (xs : List A) (x : A)
    → n ≤ length xs
    → drop n (xs ++ (x ∷ [])) ≡ drop n xs ++ (x ∷ [])
drop-push zero xs x h = refl
drop-push (suc n) [] x h = absurd (omega arith)
drop-push (suc n) (y ∷ xs) x h = drop-push n xs x (omega arith)

drop-drop : {A : Type 0} (n : ℕ) (xs : List A) → drop 1 (drop n xs) ≡ drop (suc n) xs
drop-drop zero xs = refl
drop-drop (suc n) [] = refl
drop-drop (suc n) (x ∷ xs) = drop-drop n xs

-- A ring that holds the last of the entries `done`.
pub record Holds (capacity : ℕ) (done : List LogEntry) (logger : RingLogger) : Type 0 where
  pub fixed : logger.capacity ≡ capacity
  pub held : logger.entries ≡ drop (length done - capacity) (numbered 1 done)
  pub counted : logger.next_sequence ≡ 1 + length done
  pub evicted : logger.has_evicted_entries ≡ ltb capacity (length done)

push-Holds :
    (capacity : ℕ) (done : List LogEntry) (entry : LogEntry) (logger : RingLogger)
    → 0 < capacity
    → 2 + length done < 2 ^ 64
    → Holds capacity done logger
    → Holds capacity (done ++ (entry ∷ [])) (push_entry entry logger)
unfolding push_entry make_room
push-Holds capacity done entry logger positive few v =
    let size : length logger.entries ≡ length done - (length done - capacity) =
      ap length v.held
      ∙ omega
          (arith, length-drop (length done - capacity) (numbered 1 done), length-numbered 1 done) in
    let one_more : length (done ++ (entry ∷ [])) ≡ suc (length done) =
      omega (arith, length-append done (entry ∷ [])) in
    let next : (logger.next_sequence + 1) % 2 ^ 64 ≡ 1 + length (done ++ (entry ∷ [])) =
      ground (arith, v.counted, one_more) in
    elim (Bool-cases (length logger.entries == logger.capacity)) [
      | inl full ↦ rw full (record {
        fixed = v.fixed;
        held =
            let grown : length (done ++ (entry ∷ [])) - capacity ≡ suc (length done - capacity) =
              ground (arith, v.fixed, size, one_more) in
            let small : suc (length done - capacity) ≤ length (numbered 1 done) =
              ground (arith, v.fixed, size, length-numbered 1 done) in
            rw (grown, numbered_push 1 done entry, v.counted, v.held, drop-drop)
              (sym (drop-push (suc (length done - capacity)) (numbered 1 done) _ small));
        counted = next;
        evicted = ground (arith, v.fixed, size, one_more);
      })
      | inr roomy ↦ rw roomy (record {
        fixed = v.fixed;
        held =
            let all : length done - capacity ≡ 0 = ground (arith, v.fixed, size) in
            let still : length (done ++ (entry ∷ [])) - capacity ≡ 0 =
              ground (arith, v.fixed, size, one_more) in
            rw (still, numbered_push 1 done entry, v.counted, v.held, all) refl;
        counted = next;
        evicted = ground (arith, v.fixed, v.evicted, size, one_more);
      })
    ]

pub write-Holds :
    (capacity : ℕ) (done entries : List LogEntry) (logger : RingLogger)
    → 0 < capacity
    → 1 + length done + length (logged entries) < 2 ^ 64
    → Holds capacity done logger
    → Holds capacity (done ++ logged entries) (write_each entries logger)
unfolding write_each logged write
write-Holds capacity done [] logger positive few v = rw (append-nil done) v
write-Holds capacity done (entry ∷ entries) logger positive few v =
    elim (Bool-cases (is_empty entry.component || is_empty entry.event_id)) [
      | inl skipped ↦
          rw skipped (write-Holds capacity done entries logger positive (ground arith) v)
      | inr taken ↦
          let size : length (done ++ (entry ∷ [])) ≡ suc (length done) =
            omega (arith, length-append done (entry ∷ [])) in
          let pushed = push-Holds capacity done entry logger positive (ground arith) v in
          rw taken (
            subst (λ d. Holds capacity d (write_each entries (push_entry entry logger)))
              (append_assoc done (entry ∷ []) (logged entries))
              (write-Holds capacity (done ++ (entry ∷ [])) entries (push_entry entry logger)
                positive (ground arith) pushed))
    ]

pub create-Holds :
    (capacity : ℕ) (logger : RingLogger)
    → create capacity ≡ ok logger
    → (0 < capacity) × Holds capacity [] logger
unfolding create numbered
create-Holds capacity logger made = ground arith

-- After any calls of `write` on a ring that the constructor made, fewer than 2 ^ 64 - 1 that log: the
-- ring holds the last `capacity` of the entries logged, numbered from 1 on in the order of the calls,
-- and `has_evicted_entries` says whether there were more.
pub write_each-Holds :
    (capacity : ℕ) (logger : RingLogger) (entries : List LogEntry)
    → create capacity ≡ ok logger
    → 1 + length (logged entries) < 2 ^ 64
    → let after = write_each entries logger in
      (after.entries ≡ drop (length (logged entries) - capacity) (numbered 1 (logged entries)))
      × (after.has_evicted_entries ≡ ltb capacity (length (logged entries)))
write_each-Holds capacity logger entries made few =
    let (positive, v) = create-Holds capacity logger made in
    let w = write-Holds capacity [] entries logger positive few v in (w.held, w.evicted)

numbered-Increasing : (first : ℕ) (entries : List LogEntry) → Increasing (numbered first entries)
unfolding numbered
numbered-Increasing first [] = tt
numbered-Increasing first (entry ∷ entries) =
    (above first (suc first) entries (omega arith), numbered-Increasing (suc first) entries)
  where
    above :
        (low start : ℕ) (es : List LogEntry)
        → low < start
        → All (λ later. low < later.sequence) (numbered start es)
    above low start [] h = tt
    above low start (e ∷ es) h = (h, above low (suc start) es (omega arith))

drop-Increasing :
    (n : ℕ) (entries : List LogEntry) → Increasing entries → Increasing (drop n entries)
drop-Increasing zero entries up = up
drop-Increasing (suc n) [] up = tt
drop-Increasing (suc n) (entry ∷ entries) up = drop-Increasing n entries up.1

-- After such calls of `write` the sequence numbers of the ring grow from entry to entry, which is what
-- the paging of `snapshot` rests on.
pub write_each-Increasing :
    (capacity : ℕ) (logger : RingLogger) (entries : List LogEntry)
    → create capacity ≡ ok logger
    → 1 + length (logged entries) < 2 ^ 64
    → Increasing (write_each entries logger).entries
write_each-Increasing capacity logger entries made few =
    let (held, _) = write_each-Holds capacity logger entries made few in
    subst Increasing (sym held) (
      drop-Increasing (length (logged entries) - capacity) (numbered 1 (logged entries))
        (numbered-Increasing 1 (logged entries)))
