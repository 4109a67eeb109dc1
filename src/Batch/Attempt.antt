-- ===== src/Batch/Attempt.antt =====
-- How a function of AviUtl2MCP.Bridge/src/sdk_read_facade.cpp that plans an operation of a batch ends:
-- with its result, with `create_batch_failure`, or with an exception.
use aviutl2mcp.Common.{
  ◌≡◌, ◌⊎◌, inl, inr, refl, Bool, true, false, Bytes, Exception, Result, ok, err, Option, none,
  some,
}

pub data Attempt {ℓ} (A : Type ℓ) : Type ℓ where
  done : A → Attempt A
  refused : (code message : Bytes) → Attempt A
  thrown : Exception → Attempt A

-- `if (failed) return create_batch_failure(code, message);`
abbrev pub refuse_if : Bool → (code message : Bytes) → Attempt (Unit {0})
refuse_if false code message = done tt
refuse_if true code message = refused code message

abbrev pub of_result {ℓ} : {A : Type ℓ} → Result A → Attempt A
of_result (ok value) = done value
of_result (err e) = thrown e

-- `if (!value.has_value()) return create_batch_failure(code, message);`
abbrev pub require {ℓ} : {A : Type ℓ} → Option A → (code message : Bytes) → Attempt A
require none code message = refused code message
require (some value) code message = done value

infixl 5 ◌>>=◌ ◌>>◌
abbrev pub ◌>>=◌ {ℓ κ} : {A : Type ℓ} {B : Type κ} → Attempt A → (A → Attempt B) → Attempt B
done value >>= next = next value
refused code message >>= next = refused code message
thrown e >>= next = thrown e

abbrev pub ◌>>◌ {κ} : {B : Type κ} → Attempt (Unit {0}) → Attempt B → Attempt B
check >> next = check >>= λ _. next

-- What is done has passed its first part.
pub >>=-eq-done {ℓ κ} :
    {A : Type ℓ} {B : Type κ} (first : Attempt A) (next : A → Attempt B) {result : B}
    → (first >>= next) ≡ done result
    → (value : A) × (first ≡ done value) × (next value ≡ done result)
>>=-eq-done (done value) next e = (value, refl, e)
>>=-eq-done (refused code message) next e = cc
>>=-eq-done (thrown x) next e = cc

pub refuse_if-eq-done :
    (failed : Bool) (code message : Bytes)
    → refuse_if failed code message ≡ done tt
    → failed ≡ false
refuse_if-eq-done false code message e = refl
refuse_if-eq-done true code message e = cc

pub Attempt-cases {ℓ} :
    {A : Type ℓ} (attempt : Attempt A)
    → ((value : A) × (attempt ≡ done value))
      ⊎ (((code : Bytes) × (message : Bytes) × (attempt ≡ refused code message))
          ⊎ ((x : Exception) × (attempt ≡ thrown x)))
Attempt-cases (done value) = inl (value, refl)
Attempt-cases (refused code message) = inr (inl (code, message, refl))
Attempt-cases (thrown x) = inr (inr (x, refl))
