-- ===== src/Operator/Api.antt =====
-- What the reconcilers see of the API server: errors, replies, object keys, and the result that a
-- reconciler hands back to the controller runtime.
use voxplatform.Prelude.{
  ℕ, ◌≡◌, ◌*◌, ◌^◌, String, Bool, true, false, Option, none, some, ◌&&◌, ◌=s◌, arith, if◌then◌else◌,
  text_eq_self, eq_iff,
}

pub data ApiError : Type 0 where
  not_found already_exists : ApiError
  other : String → ApiError

pub data Reply (A : Type 0) : Type 0 where
  ok : A → Reply A
  err : ApiError → Reply A

-- `errors.IsNotFound` and `errors.IsAlreadyExists`
abbrev pub is_not_found : ApiError → Bool
is_not_found not_found = true
is_not_found _ = false

abbrev pub is_already_exists : ApiError → Bool
is_already_exists already_exists = true
is_already_exists _ = false

-- `types.NamespacedName`
pub record Key : Type 0 where
  pub namespace : String
  pub name : String

-- `ctrl.Result{RequeueAfter: …}` in nanoseconds, where 0 asks for no requeue, or an error.
pub data Outcome : Type 0 where
  requeue_after : ℕ → Outcome
  error : String → Outcome

abbrev pub done : Outcome
done = requeue_after 0

abbrev pub ten_seconds : ℕ
ten_seconds = 10 * 10 ^ 9

-- The lifecycle phase of a VoiceModel; `unset` is the empty text.
pub data VoiceModelPhase : Type 0 where
  unset pending deploying ready failed terminating : VoiceModelPhase

abbrev pub phase_text : VoiceModelPhase → String
phase_text unset = ""
phase_text pending = "Pending"
phase_text deploying = "Deploying"
phase_text ready = "Ready"
phase_text failed = "Failed"
phase_text terminating = "Terminating"

pub VoiceModelPhase-discrete : Discrete VoiceModelPhase
VoiceModelPhase-discrete = hlevel

-- Objects by key, as the API server answers a read of them.
abbrev pub found : {A : Type 0} → Option A → Reply A
found none = err not_found
found (some a) = ok a

abbrev pub same_key : Key → Key → Bool
same_key k l = k.namespace =s l.namespace && k.name =s l.name

abbrev pub put {ℓ} : {A : Type ℓ} → Key → A → (Key → Option A) → Key → Option A
put k a objects l = if same_key k l then some a else objects l

pub same_key_self : (k : Key) → same_key k k ≡ true
same_key_self k = ground (arith, text_eq_self k.namespace, text_eq_self k.name)

pub same_key→eq : (k l : Key) → same_key k l ≡ true → k ≡ l
same_key→eq k l h = ground (arith, h, eq_iff k.namespace l.namespace, eq_iff k.name l.name)

-- The API server fills in a default for a text or a pointer that is absent.
abbrev pub or_text : String → String → String
or_text fallback t = if t =s "" then fallback else t

abbrev pub or_else : {A : Type 0} → A → Option A → Option A
or_else fallback none = some fallback
or_else fallback (some a) = some a

pub or_text-or_text :
    (fallback t : String) → or_text fallback (or_text fallback t) ≡ or_text fallback t
or_text-or_text fallback t = ground arith
