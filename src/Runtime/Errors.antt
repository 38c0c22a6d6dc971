-- ===== src/Runtime/Errors.antt =====
-- src/errors.ts: the errors of a channel. Messages are left out.
use agent_runtime_mcp.Base.{ℕ, Bool, true, false, List, [], Text, ◌≡◌, refl}

pub data ChannelErrorCode : Type 0 where
  channel_not_found channel_unavailable backend_unavailable : ChannelErrorCode
  backend_operation_failed invalid_argument capability_unsupported : ChannelErrorCode
  permission_denied timeout authentication_required : ChannelErrorCode
  observation_unsupported cursor_invalid cursor_expired observation_gap : ChannelErrorCode
  channel_instance_changed waiter_limit resource_exhausted wait_argument_invalid : ChannelErrorCode

pub data Detail : Type 0 where
  text : Text → Detail
  number : ℕ → Detail
  flag : Bool → Detail

pub record ChannelError : Type 0 where
  pub code : ChannelErrorCode
  pub details : List (Text × Detail)

abbrev pub plain : ChannelErrorCode → ChannelError
plain code = record { code = code; details = [] }

-- What a function that can throw a `ChannelError` gives.
pub data Result (A : Type 0) : Type 0 where
  ok : A → Result A
  thrown : ChannelError → Result A

infixl 5 ◌>>=◌ ◌>>◌
abbrev pub ◌>>=◌ : {A B : Type 0} → Result A → (A → Result B) → Result B
ok a >>= f = f a
thrown e >>= f = thrown e

abbrev pub ◌>>◌ : {B : Type 0} → Result (Unit {0}) → Result B → Result B
first >> second = first >>= λ _. second

-- `if (!test) throw error`
abbrev pub require : Bool → ChannelError → Result (Unit {0})
require true e = ok tt
require false e = thrown e

pub >>=-eq-ok :
    {A B : Type 0} (first : Result A) (next : A → Result B) {value : B}
    → first >>= next ≡ ok value
    → (found : A) × (first ≡ ok found) × (next found ≡ ok value)
>>=-eq-ok (thrown error) next e = absurd (cc e)
>>=-eq-ok (ok found) next e = (found, refl, e)

pub require-eq-ok :
    {B : Type 0} (b : Bool) (e : ChannelError) (k : Result B) {v : B}
    → (require b e >> k) ≡ ok v
    → (b ≡ true) × (k ≡ ok v)
require-eq-ok true e k h = (refl, h)
require-eq-ok false e k h = absurd (cc h)

pub ok-inj : {A : Type 0} {a b : A} → ok a ≡ ok b → a ≡ b
ok-inj e = cc

-- What is caught: a `ChannelError`, or any other value.
pub data Thrown : Type 0 where
  channel_error : ChannelError → Thrown
  anything : Thrown

pub data StructuredCode : Type 0 where
  channel_code : ChannelErrorCode → StructuredCode
  internal_error : StructuredCode

pub record StructuredError : Type 0 where
  pub code : StructuredCode
  pub details : List (Text × Detail)

pub to_structured_error : Thrown → StructuredError
to_structured_error (channel_error e) = record { code = channel_code e.code; details = e.details }
to_structured_error anything = record { code = internal_error; details = [] }
