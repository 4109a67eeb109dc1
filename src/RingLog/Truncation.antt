-- ===== src/RingLog/Truncation.antt =====
-- `truncate_message` of native_ring_logger.cpp keeps UTF-16 well formed.
use aviutl2mcp.Common.{
  ℕ, zero, suc, ◌≤◌, ◌<◌, ◌≡◌, refl, Bool, true, false, not, ◌&&◌, List, [], ◌∷◌, ◌++◌, leb,
  if◌then◌else◌, length, take, get_or, length-append, length-take, Bool-cases, inl, inr, arith,
}
use aviutl2mcp.RingLog.{truncate_message, maximum_host_message_chars}

abbrev is_high : ℕ → Bool
is_high unit = leb 0xd800 unit && leb unit 0xdbff

abbrev is_low : ℕ → Bool
is_low unit = leb 0xdc00 unit && leb unit 0xdfff

-- UTF-16 by its definition: a high surrogate stands before a low one, and a low one only there. With
-- `pending` the unit before was a high surrogate.
unfoldable pub is_utf16 : Bool → List ℕ → Bool
is_utf16 pending [] = not pending
is_utf16 true (unit ∷ units) = is_low unit && is_utf16 false units
is_utf16 false (unit ∷ units) =
    let pair = is_utf16 true units in
    let single = is_utf16 false units in if is_high unit then pair else not (is_low unit) && single

is_utf16-append :
    (pending : Bool) (xs ys : List ℕ)
    → is_utf16 pending xs ≡ true
    → is_utf16 false ys ≡ true
    → is_utf16 pending (xs ++ ys) ≡ true
unfolding is_utf16
is_utf16-append true [] ys h k = absurd (ground arith)
is_utf16-append false [] ys h k = k
is_utf16-append true (x ∷ xs) ys h k = ground (arith, is_utf16-append false xs ys)
is_utf16-append false (x ∷ xs) ys h k = elim (Bool-cases (is_high x)) [
  | inl high ↦ ground (arith, high, is_utf16-append true xs ys)
  | inr other ↦ ground (arith, other, is_utf16-append false xs ys)
]

-- A cut behind a unit that is not a high surrogate.
is_utf16-take :
    (pending : Bool) (n : ℕ) (xs : List ℕ)
    → n < length xs
    → is_utf16 pending xs ≡ true
    → is_high (get_or xs n 0) ≡ false
    → is_utf16 pending (take (suc n) xs) ≡ true
unfolding is_utf16
is_utf16-take pending n [] long h final = absurd (omega arith)
is_utf16-take true zero (x ∷ xs) long h final = ground arith
is_utf16-take false zero (x ∷ xs) long h final = ground arith
is_utf16-take true (suc n) (x ∷ xs) long h final =
    ground (arith, is_utf16-take false n xs (omega arith))
is_utf16-take false (suc n) (x ∷ xs) long h final = elim (Bool-cases (is_high x)) [
  | inl high ↦ ground (arith, high, is_utf16-take true n xs (omega arith))
  | inr other ↦ ground (arith, other, is_utf16-take false n xs (omega arith))
]

-- Two high surrogates never stand side by side.
high_once :
    (pending : Bool) (n : ℕ) (xs : List ℕ)
    → suc n < length xs
    → is_utf16 pending xs ≡ true
    → is_high (get_or xs (suc n) 0) ≡ true
    → is_high (get_or xs n 0) ≡ false
unfolding is_utf16
high_once pending n [] long h final = absurd (omega arith)
high_once pending n (x ∷ []) long h final = absurd (omega arith)
high_once true zero (x ∷ y ∷ xs) long h final = ground arith
high_once false zero (x ∷ y ∷ xs) long h final = ground arith
high_once true (suc n) (x ∷ y ∷ xs) long h final =
    high_once false n (y ∷ xs) (omega arith) (ground arith) final
high_once false (suc n) (x ∷ y ∷ xs) long h final = elim (Bool-cases (is_high x)) [
  | inl high ↦ high_once true n (y ∷ xs) (omega arith) (ground (arith, high)) final
  | inr other ↦ high_once false n (y ∷ xs) (omega arith) (ground (arith, other)) final
]

cut_message :
    (n : ℕ) (value : List ℕ)
    → is_utf16 false value ≡ true
    → n < length value
    → n < 1020
    → is_high (get_or value n 0) ≡ false
    → (is_utf16 false (take (suc n) value ++ (0x2e ∷ 0x2e ∷ 0x2e ∷ [])) ≡ true)
      × (length (take (suc n) value ++ (0x2e ∷ 0x2e ∷ 0x2e ∷ [])) ≤ 1023)
unfolding is_utf16
cut_message n value h long low final = (
  is_utf16-append false (take (suc n) value) (0x2e ∷ 0x2e ∷ 0x2e ∷ [])
      (is_utf16-take false n value long h final) refl,
  omega (
    arith,
    length-append (take (suc n) value) (0x2e ∷ 0x2e ∷ 0x2e ∷ []),
    length-take (suc n) value,
  ),
)

-- A message that is well-formed UTF-16 stays so when it is truncated, and has at most 1023 units.
pub truncate_message-is_utf16 :
    (value : List ℕ)
    → is_utf16 false value ≡ true
    → (is_utf16 false (truncate_message value) ≡ true)
      × (length (truncate_message value) ≤ maximum_host_message_chars)
unfolding truncate_message
truncate_message-is_utf16 value h =
    elim (Bool-cases (leb (length value) maximum_host_message_chars)) [
      | inl short ↦ rw short (h, ground arith)
      | inr long ↦ elim (Bool-cases (is_high (get_or value 1019 0))) [
        | inl high ↦
            rw (long, high)
              (cut_message 1018 value h (ground (arith, long)) (omega arith)
                (high_once false 1018 value (ground (arith, long)) h high))
        | inr other ↦
            rw (long, other) (cut_message 1019 value h (ground (arith, long)) (omega arith) other)
      ]
    ]
