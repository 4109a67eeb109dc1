-- ===== src/RingLog/Paging.antt =====
-- What `snapshot` of native_ring_logger.cpp returns, and how the next page continues it.
use aviutl2mcp.Common.{
  ℕ, zero, suc, ◌+◌, ◌≤◌, ◌<◌, ◌≡◌, refl, ◌∙◌, Bool, true, false, ◌||◌, Option, none, some, List,
  [], ◌∷◌, ◌++◌, ltb, leb, ◌==◌, if◌then◌else◌, length, take, drop, is_empty, take-append-drop,
  append_assoc, append-nil, length-append, All, All-take, Bool-cases, Option-cases, inl, inr, arith,
  ok,
}
use aviutl2mcp.RingLog.{
  LogEntry, LogQuery, LogSnapshot, RingLogger, skips, collect, last_sequence, to_snapshot, snapshot,
}

-- All the entries that a query asks for.
unfoldable pub matching : LogQuery → List LogEntry → List LogEntry
matching query [] = []
matching query (entry ∷ entries) =
    let rest = matching query entries in if skips query entry then rest else entry ∷ rest

ltb-suc : (m n : ℕ) → ltb (suc m) (suc n) ≡ ltb m n
ltb-suc m n = ground arith

-- The loop with room for so many entries more.
collect-matching :
    (query : LogQuery) (room : ℕ) (found entries : List LogEntry)
    → length found + room ≡ query.limit
    → collect query found entries
      ≡ (found ++ take room (matching query entries), ltb room (length (matching query entries)))
unfolding collect matching
collect-matching query zero found [] h = rw (append-nil found) refl
collect-matching query (suc room) found [] h = rw (append-nil found) (ground arith)
collect-matching query zero found (entry ∷ entries) h = elim (Bool-cases (skips query entry)) [
  | inl skipped ↦ rw skipped (collect-matching query zero found entries h)
  | inr taken ↦
      let full : (length found == query.limit) ≡ true = ground arith in
      rw (taken, full, append-nil found) (ground arith)
]
collect-matching query (suc room) found (entry ∷ entries) h =
    elim (Bool-cases (skips query entry)) [
      | inl skipped ↦ rw skipped (collect-matching query (suc room) found entries h)
      | inr taken ↦
          let more : (length found == query.limit) ≡ false = ground arith in
          let grown : length (found ++ (entry ∷ [])) + room ≡ query.limit =
            omega (arith, length-append found (entry ∷ [])) in
          rw (taken, more, ltb-suc room (length (matching query entries)))
            (collect-matching query room (found ++ (entry ∷ [])) entries grown
              ∙ rw append_assoc refl)
    ]

-- `snapshot` returns the first entries that the query asks for, up to its limit, and `is_truncated`
-- says whether there are more.
pub snapshot-matching :
    (query : LogQuery) (logger : RingLogger) (page : LogSnapshot)
    → snapshot query logger ≡ ok page
    → (page.entries ≡ take query.limit (matching query logger.entries))
      × (page.is_truncated ≡ ltb query.limit (length (matching query logger.entries)))
unfolding snapshot to_snapshot
snapshot-matching query logger page h =
    let c = collect-matching query query.limit [] logger.entries (omega arith) in ground (arith, c)

-- Sequence numbers that grow from entry to entry.
abbrev pub Increasing : List LogEntry → Type 0
Increasing [] = Unit
Increasing (entry ∷ entries) =
    All (λ later. entry.sequence < later.sequence) entries × Increasing entries

-- A page's query for the entries behind the sequence number `k`.
abbrev pub continued : LogQuery → Option ℕ → LogQuery
continued query k = record query { after_sequence = k }

unfoldable pub behind : ℕ → List LogEntry → List LogEntry
behind k [] = []
behind k (entry ∷ entries) =
    let rest = behind k entries in if leb entry.sequence k then rest else entry ∷ rest

-- The sequence number that a query starts behind, if any, is no later than `k`.
abbrev pub StartsBy : Option ℕ → ℕ → Type 0
StartsBy none k = Unit
StartsBy (some after) k = after ≤ k

skips-continued :
    (query : LogQuery) (k : ℕ) (entry : LogEntry)
    → StartsBy query.after_sequence k
    → skips (continued query (some k)) entry ≡ (leb entry.sequence k || skips query entry)
unfolding skips
skips-continued query k entry below = by query.after_sequence below _
  where
    by :
        (after : Option ℕ)
        → StartsBy after k
        → (others : Bool)
        → (leb entry.sequence k || others) ≡ (
            leb entry.sequence k
            || ((elim after as (λ o. Bool) [ none ↦ false | some a ↦ leb entry.sequence a ])
                || others))
    by none low others = refl
    by (some a) low others = ground arith

pub matching-continued :
    (query : LogQuery) (k : ℕ) (entries : List LogEntry)
    → StartsBy query.after_sequence k
    → matching (continued query (some k)) entries ≡ behind k (matching query entries)
unfolding matching behind
matching-continued query k [] below = refl
matching-continued query k (entry ∷ entries) below =
    ground (arith, skips-continued query k entry below, matching-continued query k entries below)

pub behind_later :
    (k : ℕ) (entries : List LogEntry)
    → All (λ later. k < later.sequence) entries
    → behind k entries ≡ entries
unfolding behind
behind_later k [] h = refl
behind_later k (entry ∷ entries) h = ground (arith, behind_later k entries h.1)

last_above :
    (b k : ℕ) (entries : List LogEntry)
    → All (λ later. b < later.sequence) entries
    → last_sequence entries ≡ some k
    → b < k
unfolding last_sequence
last_above b k [] h e = absurd (cc)
last_above b k (entry ∷ []) h e = ground (arith, e)
last_above b k (entry ∷ next ∷ entries) h e = last_above b k (next ∷ entries) h.1 e

behind-take :
    (n k : ℕ) (entries : List LogEntry)
    → Increasing entries
    → n ≤ length entries
    → last_sequence (take n entries) ≡ some k
    → behind k entries ≡ drop n entries
unfolding behind last_sequence
behind-take zero k entries up short e = absurd (cc)
behind-take (suc n) k [] up short e = absurd (omega arith)
behind-take (suc zero) k (entry ∷ entries) up short e =
    let same : entry.sequence ≡ k = ground arith in
    ground (arith, same, behind_later entry.sequence entries up.0)
behind-take (suc (suc n)) k (entry ∷ []) up short e = absurd (omega arith)
behind-take (suc (suc n)) k (entry ∷ next ∷ entries) up short e =
    let low : entry.sequence < k =
      last_above entry.sequence k (take (suc n) (next ∷ entries))
        (All-take (λ later. entry.sequence < later.sequence) (suc n) (next ∷ entries) up.0) e in
    let dropped : leb entry.sequence k ≡ true = ground arith in
    rw dropped (behind-take (suc n) k (next ∷ entries) up.1 (omega arith) e)

-- Whatever a query keeps it keeps in order.
pub matching-All {ℓ} :
    (P : LogEntry → Type ℓ) (query : LogQuery) (entries : List LogEntry)
    → All P entries
    → All P (matching query entries)
unfolding matching
matching-All P query [] h = tt
matching-All P query (entry ∷ entries) h = elim (Bool-cases (skips query entry)) [
  | inl skipped ↦ rw skipped (matching-All P query entries h.1)
  | inr taken ↦ rw taken (h.0, matching-All P query entries h.1)
]

matching-Increasing :
    (query : LogQuery) (entries : List LogEntry)
    → Increasing entries
    → Increasing (matching query entries)
unfolding matching
matching-Increasing query [] up = tt
matching-Increasing query (entry ∷ entries) up = elim (Bool-cases (skips query entry)) [
  | inl skipped ↦ rw skipped (matching-Increasing query entries up.1)
  | inr taken ↦ rw taken (
    matching-All (λ later. entry.sequence < later.sequence) query entries up.0,
    matching-Increasing query entries up.1,
  )
]

-- An entry that a query keeps stands behind its start.
skips-above :
    (query : LogQuery) (after : ℕ) (entry : LogEntry)
    → query.after_sequence ≡ some after
    → skips query entry ≡ false
    → after < entry.sequence
unfolding skips
skips-above query after entry e kept = ground (arith, e, kept)

matching-above :
    (query : LogQuery) (after : ℕ) (entries : List LogEntry)
    → query.after_sequence ≡ some after
    → All (λ entry. after < entry.sequence) (matching query entries)
unfolding matching
matching-above query after [] e = tt
matching-above query after (entry ∷ entries) e = elim (Bool-cases (skips query entry)) [
  | inl skipped ↦ rw skipped (matching-above query after entries e)
  | inr taken ↦
      rw taken (skips-above query after entry e taken, matching-above query after entries e)
]

pub matching-StartsBy :
    (query : LogQuery) (n k : ℕ) (entries : List LogEntry)
    → last_sequence (take n (matching query entries)) ≡ some k
    → StartsBy query.after_sequence k
matching-StartsBy query n k entries e = elim (Option-cases query.after_sequence) [
  | inl anywhere ↦ rw anywhere tt
  | inr (after, start) ↦
      let above : after < k =
        last_above after k (take n (matching query entries))
          (All-take (λ entry. after < entry.sequence) n _
            (matching-above query after entries start))
          e in
      rw start (omega arith)
]

pub last_exists :
    (n : ℕ) (entries : List LogEntry)
    → 0 < n
    → 0 < length entries
    → (k : ℕ) × (last_sequence (take n entries) ≡ some k) × (is_empty (take n entries) ≡ false)
unfolding last_sequence
last_exists zero entries h p = absurd (omega arith)
last_exists (suc n) [] h p = absurd (omega arith)
last_exists (suc zero) (entry ∷ entries) h p = (entry.sequence, refl, refl)
last_exists (suc (suc n)) (entry ∷ []) h p = (entry.sequence, refl, refl)
last_exists (suc (suc n)) (entry ∷ next ∷ entries) h p =
    let (k, e, _) = last_exists (suc n) (next ∷ entries) (omega arith) (omega arith) in (k, e, refl)

-- The limit of a query that is answered, and the `next_sequence` of a page with more behind it.
pub snapshot-next_sequence :
    (query : LogQuery) (logger : RingLogger) (page : LogSnapshot)
    → snapshot query logger ≡ ok page
    → page.is_truncated ≡ true
    → is_empty page.entries ≡ false
    → page.next_sequence ≡ last_sequence page.entries
unfolding snapshot to_snapshot
snapshot-next_sequence query logger page h more full = ground arith

pub snapshot_limit :
    (query : LogQuery) (logger : RingLogger) (page : LogSnapshot)
    → snapshot query logger ≡ ok page
    → 0 < query.limit
unfolding snapshot
snapshot_limit query logger page h = ground arith

-- Take a page of a ring whose sequence numbers grow, with more entries behind it. Then the query for
-- the entries behind its `next_sequence` asks for exactly what the page left out, in order, as long as
-- nothing is written between.
pub snapshot-continued :
    (query : LogQuery) (logger : RingLogger) (page : LogSnapshot)
    → Increasing logger.entries
    → snapshot query logger ≡ ok page
    → page.is_truncated ≡ true
    → page.entries ++ matching (continued query page.next_sequence) logger.entries
      ≡ matching query logger.entries
snapshot-continued query logger page up h more =
    let (first, truncated) = snapshot-matching query logger page h in
    let long : query.limit < length (matching query logger.entries) = ground arith in
    let some_room = snapshot_limit query logger page h in
    let (k, last, full) =
      last_exists query.limit (matching query logger.entries) some_room (omega arith) in
    let next : page.next_sequence ≡ some k =
      snapshot-next_sequence query logger page h more (rw first full) ∙ rw first last in
    let low = matching-StartsBy query query.limit k logger.entries last in
    let rest =
      behind-take query.limit k (matching query logger.entries)
        (matching-Increasing query logger.entries up) (omega arith) last in
    rw (next, first, matching-continued query k logger.entries low, rest)
      (take-append-drop query.limit (matching query logger.entries))
