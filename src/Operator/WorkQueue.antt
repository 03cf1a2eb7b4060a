-- ===== src/Operator/WorkQueue.antt =====
-- What the controllers of operator/internal/controller have in common when they run: objects by
-- key, and the work queue of keys. A key that is reconciled leaves the queue, from any place of it.
use mathlib.Core.List.{Memᴰ}
use mathlib.Core.List.Memᴰ
use voxplatform.Prelude.{
  zero, suc, ◌≡◌, ◌≢◌, ◌⊎◌, inl, inr, refl, sym, ◌∙◌, ap, Option, List, [], ◌∷◌, ◌++◌, Bool-cases,
  if◌then◌else◌,
}
use voxplatform.Operator.Api.{
  Key, Outcome, requeue_after, error, same_key, same_key_self, same_key→eq,
}

-- One entry is replaced, or removed.
abbrev pub set {ℓ} : {A : Type ℓ} → Key → Option A → (Key → Option A) → Key → Option A
set k a objects l = if same_key k l then a else objects l

-- A key whose reconcile failed, or asked to be called again, is queued again.
abbrev pub again : Outcome → Key → List Key → List Key
again (requeue_after zero) key rest = rest
again (requeue_after (suc n)) key rest = rest ++ key ∷ []
again (error e) key rest = rest ++ key ∷ []

-- Looking up a key after one entry was replaced.
module _ {ℓ} {A : Type ℓ} (k : Key) (a : Option A) (objects : Key → Option A) where
  pub set_cases :
      (l : Key) (o : Option A)
      → set k a objects l ≡ o
      → ((k ≡ l) × (a ≡ o)) ⊎ ((k ≢ l) × (objects l ≡ o))
  set_cases l o h = elim (Bool-cases (same_key k l)) [
    | inl same ↦ inl (same_key→eq k l same, simp same at h)
    | inr other ↦ inr (λ e. cc (ap (same_key k) e ∙ other, same_key_self k), simp other at h)
  ]

pub mem_others :
    (k key : Key) (before rest : List Key)
    → key ≢ k
    → Memᴰ k (before ++ key ∷ rest)
    → Memᴰ k (before ++ rest)
mem_others k key before rest n m = elim (Memᴰ.append_cases before m) [
  | inl early ↦ Memᴰ.append_left rest early
  | inr later ↦ elim (Memᴰ.cases_cons later) [
    | inl e ↦ absurd (n (sym e))
    | inr late ↦ Memᴰ.append_right before late
  ]
]

pub mem_again :
    (o : Outcome) (k key : Key) (rest : List Key) → Memᴰ k rest → Memᴰ k (again o key rest)
mem_again (requeue_after zero) k key rest m = m
mem_again (requeue_after (suc n)) k key rest m = Memᴰ.append_left _ m
mem_again (error e) k key rest m = Memᴰ.append_left _ m

pub queued_last : (k : Key) (rest : List Key) → Memᴰ k (rest ++ k ∷ [])
queued_last k rest = Memᴰ.append_right rest (Memᴰ.head refl)

-- What a start can lead to, by steps.
pub data Reach {S : Type 0} (Step : S → S → Type 0) (start : S) : S → Type 0 where
  started : Reach Step start start
  stepped : {c d : S} → Reach Step start c → Step c d → Reach Step start d

pub Reach-keeps :
    {S : Type 0} (Step : S → S → Type 0) (P : S → Type 0) (start c : S)
    → ((c d : S) → Step c d → P c → P d)
    → P start
    → Reach Step start c
    → P c
Reach-keeps Step P start c step first started = first
Reach-keeps Step P start c step first (stepped before last) =
    step _ _ last (Reach-keeps Step P start _ step first before)
