-- ===== src/Common/Errors.antt =====
-- The C++ exceptions, with their `what()`, as error values, and the monad of code that may throw.
use Prim.Native.String.{String}
use mathlib.Core.Path.{◌≡◌, refl}
use mathlib.Core.Logic.{◌⊎◌, inl, inr}
use mathlib.Core.Bool.{Bool, true, false}

-- `stream_closed` is `ipc_stream_closed`, which `read_frame` throws between two frames.
pub data Exception : Type 0 where
  invalid_argument length_error runtime_error logic_error overflow_error : String → Exception
  stream_closed : Exception

pub data Result {ℓ} (A : Type ℓ) : Type ℓ where
  err : Exception → Result A
  ok : A → Result A

-- `if (failed) throw thrown;`
abbrev pub throw_if : Bool → Exception → Result (Unit {0})
throw_if false thrown = ok tt
throw_if true thrown = err thrown

infixl 5 ◌>>=◌
abbrev pub ◌>>=◌ {ℓ κ} : {A : Type ℓ} {B : Type κ} → Result A → (A → Result B) → Result B
err thrown >>= continuation = err thrown
ok value >>= continuation = continuation value

infixl 5 ◌>>◌
abbrev pub ◌>>◌ {κ} : {B : Type κ} → Result (Unit {0}) → Result B → Result B
check >> continuation = check >>= λ _. continuation

-- Code that has returned has not thrown.
pub >>=-eq-ok {ℓ κ} :
    {A : Type ℓ} {B : Type κ} (first : Result A) (next : A → Result B) {result : B}
    → (first >>= next) ≡ ok result
    → (value : A) × (first ≡ ok value) × (next value ≡ ok result)
>>=-eq-ok (err thrown) next returned = cc
>>=-eq-ok (ok value) next returned = (value, refl, returned)

pub Result-cases {ℓ} :
    {A : Type ℓ} (run : Result A)
    → ((value : A) × (run ≡ ok value)) ⊎ ((thrown : Exception) × (run ≡ err thrown))
Result-cases (err thrown) = inr (thrown, refl)
Result-cases (ok value) = inl (value, refl)
