-- ===== src/Gateway/Server/Routes.antt =====
-- Which handler the ServeMux of internal/gateway/server.go gives a request to.
use voxplatform.Prelude.{
  ◌≡◌, ◌≢◌, ◌↔◌, ◌⊎◌, inl, inr, refl, sym, ◌∙◌, ap, String, true, Option, none, some, List, [], ◌∷◌,
  arith, eq_iff, All,
}
use voxplatform.Gateway.Server.{
  Route, Pattern, takes_method, handler, not_found, method_not_allowed, has_path, find_pattern,
  dispatched, serve_mux,
}

-- The pattern takes the request for the handler.
abbrev pub Takes : Pattern → String → String → Route → Type 0
Takes p method path h = (p.path ≡ path) × (takes_method p.method method ≡ true) × (p.handler ≡ h)

abbrev pub IsRegistered : List Pattern → String → String → Route → Type 0
IsRegistered [] method path h = ⊥
IsRegistered (p ∷ ps) method path h = Takes p method path h ⊎ IsRegistered ps method path h

abbrev pub HasPath : List Pattern → String → Type 0
HasPath [] path = ⊥
HasPath (p ∷ ps) path = (p.path ≡ path) ⊎ HasPath ps path

-- No path is registered twice.
abbrev pub IsDistinct : List Pattern → Type 0
IsDistinct [] = Unit
IsDistinct (p ∷ ps) = All (λ (q : Pattern). q.path ≢ p.path) ps × IsDistinct ps

has_path_iff : (ps : List Pattern) (path : String) → (has_path path ps ≡ true) ↔ HasPath ps path
has_path_iff [] path = ((λ e. cc), (λ e. absurd e))
has_path_iff (p ∷ ps) path = ground (arith, has_path_iff ps path, eq_iff p.path path)

find_pattern-IsRegistered :
    (ps : List Pattern) (method path : String) (h : Route)
    → find_pattern ps method path ≡ some h
    → IsRegistered ps method path h
find_pattern-IsRegistered [] method path h e = cc
find_pattern-IsRegistered (p ∷ ps) method path h e =
    ground (arith, find_pattern-IsRegistered ps method path h, eq_iff p.path path)

-- A later pattern that takes the request has another path than the first one.
apart :
    (p : Pattern) (ps : List Pattern) (method path : String) (h : Route)
    → All (λ (q : Pattern). q.path ≢ p.path) ps
    → IsRegistered ps method path h
    → p.path ≢ path
apart p [] method path h d r = absurd r
apart p (q ∷ ps) method path h d (inl t) = λ e. d.0 (t.0 ∙ sym e)
apart p (q ∷ ps) method path h d (inr r) = apart p ps method path h d.1 r

IsRegistered-find_pattern :
    (ps : List Pattern) (method path : String) (h : Route)
    → IsDistinct ps
    → IsRegistered ps method path h
    → find_pattern ps method path ≡ some h
IsRegistered-find_pattern [] method path h d r = absurd r
IsRegistered-find_pattern (p ∷ ps) method path h d (inl t) = ground (arith, t, eq_iff p.path path)
IsRegistered-find_pattern (p ∷ ps) method path h d (inr r) = ground (
  arith,
  IsRegistered-find_pattern ps method path h d.1 r,
  apart p ps method path h d.0 r,
  eq_iff p.path path,
)

module _ (ps : List Pattern) (method path : String) (d : IsDistinct ps) where
  registered :
      (h : Route) (o : Option Route)
      → find_pattern ps method path ≡ o
      → (o ≡ some h → IsRegistered ps method path h) × (IsRegistered ps method path h → o ≡ some h)
  registered h o e = (
    λ f. find_pattern-IsRegistered ps method path h (e ∙ f),
    λ r. sym e ∙ IsRegistered-find_pattern ps method path h d r,
  )

  handler_iff :
      (h : Route) (o : Option Route)
      → find_pattern ps method path ≡ o
      → (dispatched ps path o ≡ handler h) ↔ IsRegistered ps method path h
  handler_iff h none e = ground (arith, registered h none e)
  handler_iff h (some h') e = (
    λ f. (registered h (some h') e).0 cc,
    λ r. ap (dispatched ps path) ((registered h (some h') e).1 r),
  )

  some-HasPath : (qs : List Pattern) (h : Route) → IsRegistered qs method path h → HasPath qs path
  some-HasPath [] h r = absurd r
  some-HasPath (q ∷ qs) h r = ground (arith, r, some-HasPath qs h)

  not_found_iff :
      (o : Option Route)
      → find_pattern ps method path ≡ o
      → (dispatched ps path o ≡ not_found) ↔ (¬ HasPath ps path)
  not_found_iff none e = ground (arith, has_path_iff ps path)
  not_found_iff (some h) e =
      (λ f. cc, λ n. absurd (n (some-HasPath ps h ((registered h (some h) e).0 refl))))

  method_iff :
      (o : Option Route)
      → find_pattern ps method path ≡ o
      → (dispatched ps path o ≡ method_not_allowed)
        ↔ (HasPath ps path × ((h : Route) → ¬ IsRegistered ps method path h))
  method_iff none e = (
    λ f. (ground (arith, f, has_path_iff ps path), λ h r. cc ((registered h none e).1 r)),
    λ w. ground (arith, w.0, has_path_iff ps path),
  )
  method_iff (some h) e = (λ f. cc, λ w. absurd (w.1 h ((registered h (some h) e).0 refl)))

-- Where no path is registered twice, a request is given to a handler exactly if some pattern with
-- its path takes its method for that handler, so that the order of the registrations does not
-- matter; it is answered with status 404 exactly if no pattern has its path, and with status 405
-- exactly if one has and none of these takes its method.
pub serve_mux_iff :
    (ps : List Pattern) (method path : String)
    → IsDistinct ps
    → ((h : Route) → (serve_mux ps method path ≡ handler h) ↔ IsRegistered ps method path h)
      × ((serve_mux ps method path ≡ not_found) ↔ (¬ HasPath ps path))
      × ((serve_mux ps method path ≡ method_not_allowed)
          ↔ (HasPath ps path × ((h : Route) → ¬ IsRegistered ps method path h)))
unfolding serve_mux
serve_mux_iff ps method path d = (
  λ h. handler_iff ps method path d h (find_pattern ps method path) refl,
  not_found_iff ps method path d (find_pattern ps method path) refl,
  method_iff ps method path d (find_pattern ps method path) refl,
)
