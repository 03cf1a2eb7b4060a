-- ===== src/Gateway/EventLog/Cloud/Objects.antt =====
-- The objects that the Cloud Storage log leaves in its bucket.
use mathlib.Core.Path.{subst}
use voxplatform.Prelude.{
  Bool, ◌≡◌, ◌⊎◌, inl, inr, true, false, Bool-cases, refl, sym, ap, ◌∙◌, String, Option, none, some,
  List, [], ◌∷◌, ◌++◌, if◌then◌else◌, ◌=s◌,
}
use voxplatform.Gateway.Wav.{Bytes}
use voxplatform.Gateway.Http.{Result, ok, err, HttpReply, not_built, not_sent, answered}
use voxplatform.Gateway.EventLog.{Event}
use voxplatform.Gateway.EventLog.Cloud.{
  Upload, Cloud, object_name, upload_url, upload_result, log_with_token, log_line, log_gcs,
}

-- The storage server: a state, the objects of the bucket in it by name, the object that an address
-- names once it is decoded, and what an upload makes of the state.
pub record Storage (S : Type 0) : Type 0 where
  pub object : S → String → Option Bytes
  pub named : String → String
  pub receive : Upload → S → S

-- An upload of media replaces the object that its address names, and leaves the others.
abbrev pub IsReplacing : {S : Type 0} → Storage S → Type 0
IsReplacing storage =
    (n : String) (u : Upload) (s : _)
    → storage.object (storage.receive u s) n
      ≡ (if n =s storage.named u.url then some u.body else storage.object s n)

-- An event to log, and the answers of the two servers while it is logged.
pub record Entry : Type 0 where
  pub event : Event
  pub metadata : HttpReply
  pub upload : HttpReply

abbrev pub stored_line : Option String × Option Upload → Option Bytes
stored_line (none, some u) = some u.body
stored_line _ = none

-- The content of an object after a line is stored, where `b` is whether it is the line's object.
abbrev over : Bool → Option Bytes → Option Bytes → Option Bytes
over true (some line) old = some line
over _ _ old = old

keeps_old : (b : Bool) (old : Option Bytes) → old ≡ over b none old
keeps_old true old = refl
keeps_old false old = refl

over_covers :
    (b : Bool) (new old old' : Option Bytes) (line : Bytes)
    → new ≡ some line
    → (b ≡ true) ⊎ (old ≡ old')
    → over b new old ≡ over b new old'
over_covers b new old old' line e (inl t) = simp (t, e) refl
over_covers b new old old' line e (inr q) = ap (over b new) q

over_apart : (b : Bool) (new old : Option Bytes) → b ≡ false → over b new old ≡ old
over_apart b new old e = simp e refl

takes_new :
    (b : Bool) (line : Bytes) (old : Option Bytes)
    → (if b then some line else old) ≡ over b (some line) old
takes_new true line old = refl
takes_new false line old = refl

module _ {S : Type 0} (cloud : Cloud) (storage : Storage S) (bucket : String) where
  -- What Log answers for the event, and the upload that it sends.
  abbrev pub log_entry : Entry → Option String × Option Upload
  log_entry x = log_gcs cloud bucket x.metadata x.upload x.event

  -- An upload that is refused, and an event whose log fails before it, leave the bucket.
  abbrev kept : Option String × Option Upload → S → S
  kept (none, some u) s = storage.receive u s
  kept _ s = s

  -- The bucket after the events are logged, oldest first.
  abbrev pub log_all : List Entry → S → S
  log_all [] s = s
  log_all (x ∷ xs) s = log_all xs (kept (log_entry x) s)

  abbrev name_of : Entry → String
  name_of x = storage.named (upload_url bucket (object_name cloud.date x.event))

  -- What is stored for an event.
  abbrev line_of : Entry → Option Bytes
  line_of x = stored_line (log_entry x)

  module _ (replaces : IsReplacing storage) where
    kept-answered :
        (u : Upload) (s : S) (n : String) (o : Option String)
        → storage.object (kept (o, some u) s) n
          ≡ over (n =s storage.named u.url) (stored_line (o, some u)) (storage.object s n)
    kept-answered u s n none = replaces n u s ∙ takes_new (n =s storage.named u.url) u.body _
    kept-answered u s n (some m) = keeps_old (n =s storage.named u.url) _

    kept-with_token :
        (x : Entry) (line : Bytes) (reply : HttpReply) (t : Result String) (s : S) (n : String)
        → storage.object (kept (log_with_token cloud bucket x.event line reply t) s) n
          ≡ over
              (n =s name_of x)
              (stored_line (log_with_token cloud bucket x.event line reply t))
              (storage.object s n)
    kept-with_token x line reply (err m) s n = keeps_old (n =s name_of x) _
    kept-with_token x line (not_built m) (ok token) s n = keeps_old (n =s name_of x) _
    kept-with_token x line (not_sent m) (ok token) s n = keeps_old (n =s name_of x) _
    kept-with_token x line (answered status body) (ok token) s n =
        kept-answered _ s n (upload_result (answered status body))

    kept-line :
        (x : Entry) (r : Result Bytes) (s : S) (n : String)
        → storage.object (kept (log_line cloud bucket x.metadata x.upload x.event r) s) n
          ≡ over
              (n =s name_of x)
              (stored_line (log_line cloud bucket x.metadata x.upload x.event r))
              (storage.object s n)
    unfolding log_line
    kept-line x (err m) s n = keeps_old (n =s name_of x) _
    kept-line x (ok line) s n = kept-with_token x _ x.upload _ s n

    kept-entry :
        (x : Entry) (s : S) (n : String)
        → storage.object (kept (log_entry x) s) n
          ≡ over (n =s name_of x) (line_of x) (storage.object s n)
    unfolding log_gcs
    kept-entry x s n = kept-line x (cloud.marshal x.event) s n

    -- The content of an object, from the events alone.
    abbrev latest : String → List Entry → Option Bytes → Option Bytes
    latest n [] old = old
    latest n (x ∷ xs) old = latest n xs (over (n =s name_of x) (line_of x) old)

    object-log_all :
        (xs : List Entry) (s : S) (n : String)
        → storage.object (log_all xs s) n ≡ latest n xs (storage.object s n)
    object-log_all [] s n = refl
    object-log_all (x ∷ xs) s n = object-log_all xs _ n ∙ ap (latest n xs) (kept-entry x s n)

    latest-append :
        (n : String) (xs ys : List Entry) (old : Option Bytes)
        → latest n (xs ++ ys) old ≡ latest n ys (latest n xs old)
    latest-append n [] ys old = refl
    latest-append n (x ∷ xs) ys old = latest-append n xs ys _

    -- Nothing that came before shows once a line is stored.
    latest_covers :
        (n : String) (middle : List Entry) (y : Entry) (later : List Entry) (line : Bytes)
        (old old' : Option Bytes)
        → line_of y ≡ some line
        → ((n =s name_of y) ≡ true) ⊎ (old ≡ old')
        → latest n (middle ++ y ∷ later) old ≡ latest n (middle ++ y ∷ later) old'
    latest_covers n [] y later line old old' e h =
        ap (latest n later) (over_covers (n =s name_of y) (line_of y) old old' line e h)
    latest_covers n (x ∷ middle) y later line old old' e h =
        latest_covers n middle y later line _ _ e
          (elim h [ inl t ↦ inl t | inr q ↦ inr (ap (over (n =s name_of x) (line_of x)) q) ])

    skips :
        (n : String) (x y : Entry) (old : Option Bytes)
        → name_of x ≡ name_of y
        → ((n =s name_of y) ≡ true) ⊎ (over (n =s name_of x) (line_of x) old ≡ old)
    skips n x y old same = elim (Bool-cases (n =s name_of y)) [
      | inl t ↦ inl t
      | inr f ↦ inr (
          over_apart (n =s name_of x) (line_of x) old
            (subst (λ (m : String). (n =s m) ≡ false) (sym same) f))
    ]

    -- An upload replaces the object of its name. So if two events of one request have the same
    -- type and the same day, whatever their stages, and the log stores the later one, then every
    -- object of the bucket is as if the earlier one had never been logged, whatever is logged
    -- before, between and after them.
    pub log_all_overwrites :
        (before middle later : List Entry) (x y : Entry) (s : S) (line : Bytes) (n : String)
        → x.event.request_id ≡ y.event.request_id
        → x.event.type ≡ y.event.type
        → cloud.date x.event.timestamp ≡ cloud.date y.event.timestamp
        → line_of y ≡ some line
        → storage.object (log_all (before ++ (x ∷ middle ++ y ∷ later)) s) n
          ≡ storage.object (log_all (before ++ (middle ++ y ∷ later)) s) n
    log_all_overwrites before middle later x y s line n same_id same_type same_day e =
        let same : name_of x ≡ name_of y = cc (same_id, same_type, same_day) in
        object-log_all (before ++ (x ∷ middle ++ y ∷ later)) s n
        ∙ latest-append n before (x ∷ middle ++ y ∷ later) _
        ∙ latest_covers n middle y later line _ _ e (skips n x y _ same)
        ∙ sym (
            object-log_all (before ++ (middle ++ y ∷ later)) s n
            ∙ latest-append n before (middle ++ y ∷ later) _)
