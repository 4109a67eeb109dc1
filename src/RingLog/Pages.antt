-- ===== src/RingLog/Pages.antt =====
-- Two pages of `snapshot` of AviUtl2MCP.Bridge/src/native_ring_logger.cpp with calls of `write` between
-- them.
use aviutl2mcp.Common.{
  ℕ, zero, suc, ◌+◌, ◌-◌, ◌^◌, ◌≤◌, ◌<◌, ◌≡◌, refl, sym, ap, ◌∙◌, subst, true, some, List, [], ◌∷◌,
  ◌++◌, leb, length, take, drop, take-append-drop, append_assoc, length-append, All, All-take,
  All-drop, Bool-cases, inl, inr, arith, ok,
}
use aviutl2mcp.RingLog.{
  LogEntry, LogQuery, LogSnapshot, RingLogger, create, skips, last_sequence, snapshot,
}
use aviutl2mcp.RingLog.Paging.{
  matching, continued, behind, matching-continued, behind_later, matching-All, matching-StartsBy,
  last_exists, snapshot-next_sequence, snapshot_limit, snapshot-matching, snapshot-continued,
}
use aviutl2mcp.RingLog.Retention.{
  write_each, logged, numbered, Holds, write-Holds, create-Holds, write_each-Increasing,
}

matching-append :
    (query : LogQuery) (xs ys : List LogEntry)
    → matching query (xs ++ ys) ≡ matching query xs ++ matching query ys
unfolding matching
matching-append query [] ys = refl
matching-append query (x ∷ xs) ys = elim (Bool-cases (skips query x)) [
  | inl skipped ↦ rw skipped (matching-append query xs ys)
  | inr taken ↦ rw taken (ap (λ rest. x ∷ rest) (matching-append query xs ys))
]

behind-append : (k : ℕ) (xs ys : List LogEntry) → behind k (xs ++ ys) ≡ behind k xs ++ behind k ys
unfolding behind
behind-append k [] ys = refl
behind-append k (x ∷ xs) ys = elim (Bool-cases (leb x.sequence k)) [
  | inl low ↦ rw low (behind-append k xs ys)
  | inr high ↦ rw high (ap (λ rest. x ∷ rest) (behind-append k xs ys))
]

behind_low :
    (k : ℕ) (entries : List LogEntry)
    → All (λ entry. entry.sequence < suc k) entries
    → behind k entries ≡ []
unfolding behind
behind_low k [] h = refl
behind_low k (entry ∷ entries) h = ground (arith, h, behind_low k entries h.1)

numbered-append :
    (first : ℕ) (xs ys : List LogEntry)
    → numbered first (xs ++ ys) ≡ numbered first xs ++ numbered (first + length xs) ys
unfolding numbered
numbered-append first [] ys = ap (λ n. numbered n ys) (omega arith)
numbered-append first (x ∷ xs) ys =
    ap (λ rest. record x { sequence = first } ∷ rest)
      (numbered-append (suc first) xs ys
        ∙ ap (λ n. numbered (suc first) xs ++ numbered n ys) (omega arith))

-- The first `n` numbers, and the numbers from the first on.
take-numbered :
    (n first bound : ℕ) (xs : List LogEntry)
    → first + n ≤ bound
    → All (λ entry. entry.sequence < bound) (take n (numbered first xs))
unfolding numbered
take-numbered zero first bound xs h = tt
take-numbered (suc n) first bound [] h = tt
take-numbered (suc n) first bound (x ∷ xs) h =
    (omega arith, take-numbered n (suc first) bound xs (omega arith))

numbered_below :
    (first bound : ℕ) (xs : List LogEntry)
    → first + length xs ≤ bound
    → All (λ entry. entry.sequence < bound) (numbered first xs)
unfolding numbered
numbered_below first bound [] h = tt
numbered_below first bound (x ∷ xs) h =
    (omega arith, numbered_below (suc first) bound xs (omega arith))

numbered_above :
    (k first : ℕ) (xs : List LogEntry)
    → k < first
    → All (λ entry. k < entry.sequence) (numbered first xs)
unfolding numbered
numbered_above k first [] h = tt
numbered_above k first (x ∷ xs) h = (h, numbered_above k (suc first) xs (omega arith))

last_below :
    (bound k : ℕ) (entries : List LogEntry)
    → All (λ entry. entry.sequence < bound) entries
    → last_sequence entries ≡ some k
    → k < bound
unfolding last_sequence
last_below bound k [] h e = absurd (cc)
last_below bound k (entry ∷ []) h e = ground (arith, e)
last_below bound k (entry ∷ next ∷ entries) h e = last_below bound k (next ∷ entries) h.1 e

take-length_append :
    (n : ℕ) (xs ys : List LogEntry) → take (length xs + n) (xs ++ ys) ≡ xs ++ take n ys
take-length_append n [] ys =
    let none_taken : 0 + n ≡ n = omega arith in ap (λ m. take m ys) none_taken
take-length_append n (x ∷ xs) ys =
    let one_more : length (x ∷ xs) + n ≡ suc (length xs + n) = omega arith in
    ap (λ m. take m (x ∷ (xs ++ ys))) one_more ∙ ap (λ rest. x ∷ rest) (take-length_append n xs ys)

-- What is evicted up to the number `k` is nothing that stands behind it.
behind-evicted :
    (query : LogQuery) (d k : ℕ) (xs : List LogEntry)
    → d ≤ k
    → behind k (matching query (drop d (numbered 1 xs))) ≡ behind k (matching query (numbered 1 xs))
behind-evicted query d k xs few =
    let all = numbered 1 xs in
    let low : behind k (matching query (take d all)) ≡ [] =
      behind_low k (matching query (take d all)) (
        matching-All (λ entry. entry.sequence < suc k) query (take d all)
          (take-numbered d 1 (suc k) xs (omega arith))) in
    let split : matching query all ≡ matching query (take d all) ++ matching query (drop d all) =
      ap (matching query) (sym (take-append-drop d all))
      ∙ matching-append query (take d all) (drop d all) in
    sym (
      ap (behind k) split
      ∙ (behind-append k (matching query (take d all)) (matching query (drop d all))
          ∙ ap (λ rest. rest ++ behind k (matching query (drop d all))) low))

snapshot-last :
    (query : LogQuery) (logger : RingLogger) (page : LogSnapshot) (k : ℕ)
    → snapshot query logger ≡ ok page
    → page.is_truncated ≡ true
    → page.next_sequence ≡ some k
    → last_sequence (take query.limit (matching query logger.entries)) ≡ some k
snapshot-last query logger page k h more next =
    let (first, truncated) = snapshot-matching query logger page h in
    let long : query.limit < length (matching query logger.entries) = ground arith in
    let (k', last, full) =
      last_exists query.limit (matching query logger.entries) (snapshot_limit query logger page h)
        (omega arith) in
    let named : page.next_sequence ≡ some k' =
      snapshot-next_sequence query logger page h more (rw first full) ∙ rw first last in
    last ∙ (sym named ∙ next)

-- What stands behind `k` in a ring after more calls of `write`, where all up to the last evicted entry
-- had been read.
behind-written :
    (query : LogQuery) (capacity k : ℕ) (done more : List LogEntry) (logger later : RingLogger)
    → Holds capacity done logger
    → Holds capacity (done ++ more) later
    → k ≤ length done
    → length done + length more ≤ capacity + k
    → behind k (matching query later.entries)
      ≡ behind k (matching query logger.entries) ++ matching query (numbered (1 + length done) more)
behind-written query capacity k done more logger later before after reached unread =
    let fresh = numbered (1 + length done) more in
    let total : length (done ++ more) ≡ length done + length more = length-append done more in
    let high : behind k (matching query fresh) ≡ matching query fresh =
      behind_later k (matching query fresh) (
        matching-All (λ entry. k < entry.sequence) query fresh
          (numbered_above k (1 + length done) more (omega arith))) in
    ap (λ es. behind k (matching query es)) after.held
    ∙ (behind-evicted query (length (done ++ more) - capacity) k (done ++ more) (omega arith)
        ∙ (ap (λ es. behind k (matching query es)) (numbered-append 1 done more)
            ∙ (ap (behind k) (matching-append query (numbered 1 done) fresh)
                ∙ (behind-append k (matching query (numbered 1 done)) (matching query fresh)
                    ∙ (ap (λ rest. behind k (matching query (numbered 1 done)) ++ rest) high
                        ∙ ap (λ front. front ++ matching query fresh)
                            (sym (
                              ap (λ es. behind k (matching query es)) before.held
                              ∙ behind-evicted query (length done - capacity) k done
                                  (omega arith))))))))

-- Take a ring after any calls of `write`, fewer than 2 ^ 64 - 1 that log, and a page of it with more
-- entries behind it; then more calls of `write`, which evict nothing that the page left out; then the page
-- behind `next_sequence`. The two pages are the first entries that the query asks for of the ring as it
-- was and of what has been logged since, in order and up to the second page's limit: the client misses
-- nothing and sees nothing twice.
pub pages_continue :
    (capacity : ℕ) (empty : RingLogger) (earlier between : List LogEntry) (query : LogQuery)
    (page second : LogSnapshot) (k : ℕ)
    → let logger = write_each earlier empty in
      let later = write_each between logger in
      create capacity ≡ ok empty
      → 1 + length (logged earlier) + length (logged between) < 2 ^ 64
      → snapshot query logger ≡ ok page
      → page.is_truncated ≡ true
      → page.next_sequence ≡ some k
      → length (logged earlier) + length (logged between) ≤ capacity + k
      → snapshot (continued query (some k)) later ≡ ok second
      → page.entries ++ second.entries
        ≡ take (length page.entries + query.limit) (
            matching query
              (logger.entries ++ numbered (1 + length (logged earlier)) (logged between)))
pages_continue capacity empty earlier between query page second k made few h more next unread h2 =
    let logger = write_each earlier empty in
    let later = write_each between logger in
    let done = logged earlier in
    let fresh = numbered (1 + length done) (logged between) in
    let (positive, start) = create-Holds capacity empty made in
    let before : Holds capacity done logger =
      write-Holds capacity [] earlier empty positive (omega arith) start in
    let after : Holds capacity (done ++ logged between) later =
      write-Holds capacity done between logger positive few before in
    let last = snapshot-last query logger page k h more next in
    let held_low : All (λ entry. entry.sequence < 1 + length done) logger.entries =
      subst (All (λ entry. entry.sequence < 1 + length done)) (sym before.held) (
        All-drop (λ entry. entry.sequence < 1 + length done) (length done - capacity)
          (numbered 1 done) (numbered_below 1 (1 + length done) done (omega arith))) in
    let reached : k < 1 + length done =
      last_below (1 + length done) k (take query.limit (matching query logger.entries))
        (All-take (λ entry. entry.sequence < 1 + length done) query.limit
          (matching query logger.entries)
          (matching-All (λ entry. entry.sequence < 1 + length done) query logger.entries held_low))
        last in
    let low = matching-StartsBy query query.limit k logger.entries last in
    let rest = matching (continued query (some k)) later.entries in
    let same : rest ≡ matching (continued query (some k)) logger.entries ++ matching query fresh =
      matching-continued query k later.entries low
      ∙ (behind-written query capacity k done (logged between) logger later before after
            (omega arith) unread
          ∙ ap (λ front. front ++ matching query fresh)
              (sym (matching-continued query k logger.entries low))) in
    let up = write_each-Increasing capacity empty earlier made (omega arith) in
    let all : page.entries ++ matching (continued query (some k)) logger.entries
        ≡ matching query logger.entries =
      subst
        (λ n.
          page.entries ++ matching (continued query n) logger.entries
          ≡ matching query logger.entries)
        next (snapshot-continued query logger page up h more) in
    let joined : page.entries ++ rest ≡ matching query (logger.entries ++ fresh) =
      ap (λ r. page.entries ++ r) same
      ∙ (sym (
            append_assoc page.entries (matching (continued query (some k)) logger.entries)
              (matching query fresh))
          ∙ (ap (λ front. front ++ matching query fresh) all
              ∙ sym (matching-append query logger.entries fresh))) in
    ap (λ r. page.entries ++ r) (snapshot-matching (continued query (some k)) later second h2).0
    ∙ (sym (take-length_append query.limit page.entries rest)
        ∙ ap (take (length page.entries + query.limit)) joined)
