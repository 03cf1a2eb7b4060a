-- ===== src/Gateway/Server/Interface.antt =====
-- The paths and methods of the gateway: the registrations of Router in internal/gateway/server.go.
use mathlib.Core.Path.{subst}
use voxplatform.Prelude.{
  ◌≡◌, ◌≢◌, ◌↔◌, ◌⊎◌, inl, inr, refl, sym, ◌∙◌, ap, String, true, false, Option, none, some, arith,
  if◌then◌else◌, ◌=s◌, eq_iff,
}
use voxplatform.Gateway.Server.{
  Route, health, ready, metrics, transcribe, list_models, stream, pipeline, routes, takes_method,
  handler, not_found, method_not_allowed, serve_mux,
}
use voxplatform.Gateway.Server.Routes.{IsRegistered, HasPath, IsDistinct, serve_mux_iff}

-- The paths of the gateway, and the methods that each takes.
abbrev pub route_path : Route → String
route_path health = "/healthz"
route_path ready = "/readyz"
route_path metrics = "/metrics"
route_path transcribe = "/v1/audio/transcriptions"
route_path list_models = "/v1/models"
route_path stream = "/v1/audio/stream"
route_path pipeline = "/v1/pipeline/run"

abbrev pub Accepts : Route → String → Type 0
Accepts transcribe method = method ≡ "POST"
Accepts pipeline method = method ≡ "POST"
Accepts stream method = Unit
Accepts _ method = (method ≡ "GET") ⊎ (method ≡ "HEAD")

takes_post : (method : String) → (takes_method (some "POST") method ≡ true) ↔ (method ≡ "POST")
takes_post method = ground (arith, eq_iff "POST" method, eq_iff "POST" "GET")

takes_get :
    (method : String)
    → (takes_method (some "GET") method ≡ true) ↔ ((method ≡ "GET") ⊎ (method ≡ "HEAD"))
takes_get method = ground (arith, eq_iff "GET" method, eq_iff "GET" "GET", eq_iff method "HEAD")

differ : (s t : String) → (s =s t) ≡ false → s ≢ t
differ s t h e = ground (arith, h, e, eq_iff s t)

routes-IsDistinct : IsDistinct routes
routes-IsDistinct = (
  (
    differ _ _ refl,
    (
      differ _ _ refl,
      (differ _ _ refl, (differ _ _ refl, (differ _ _ refl, (differ _ _ refl, tt)))),
    ),
  ),
  (
    (
      differ _ _ refl,
      (differ _ _ refl, (differ _ _ refl, (differ _ _ refl, (differ _ _ refl, tt)))),
    ),
    (
      (differ _ _ refl, (differ _ _ refl, (differ _ _ refl, (differ _ _ refl, tt)))),
      (
        (differ _ _ refl, (differ _ _ refl, (differ _ _ refl, tt))),
        ((differ _ _ refl, (differ _ _ refl, tt)), ((differ _ _ refl, tt), (tt, tt))),
      ),
    ),
  ),
)

route_iff :
    (h : Route) (method path : String)
    → IsRegistered routes method path h ↔ ((path ≡ route_path h) × Accepts h method)
route_iff health method path = ground (arith, takes_get method)
route_iff ready method path = ground (arith, takes_get method)
route_iff metrics method path = ground (arith, takes_get method)
route_iff transcribe method path = ground (arith, takes_post method)
route_iff list_models method path = ground (arith, takes_get method)
route_iff stream method path = ground arith
route_iff pipeline method path = ground (arith, takes_post method)

path_iff : (path : String) → HasPath routes path ↔ ((h : Route) × (path ≡ route_path h))
path_iff path = (to, from)
  where
    to : HasPath routes path → (h : Route) × (path ≡ route_path h)
    to (inl e) = (health, sym e)
    to (inr (inl e)) = (ready, sym e)
    to (inr (inr (inl e))) = (metrics, sym e)
    to (inr (inr (inr (inl e)))) = (transcribe, sym e)
    to (inr (inr (inr (inr (inl e))))) = (list_models, sym e)
    to (inr (inr (inr (inr (inr (inl e)))))) = (stream, sym e)
    to (inr (inr (inr (inr (inr (inr (inl e))))))) = (pipeline, sym e)
    to (inr (inr (inr (inr (inr (inr (inr x))))))) = elim x [ ]

    from : (h : Route) × (path ≡ route_path h) → HasPath routes path
    from (health, e) = inl (sym e)
    from (ready, e) = inr (inl (sym e))
    from (metrics, e) = inr (inr (inl (sym e)))
    from (transcribe, e) = inr (inr (inr (inl (sym e))))
    from (list_models, e) = inr (inr (inr (inr (inl (sym e)))))
    from (stream, e) = inr (inr (inr (inr (inr (inl (sym e))))))
    from (pipeline, e) = inr (inr (inr (inr (inr (inr (inl (sym e)))))))

-- The handler of a path.
abbrev route_at : String → Option Route
route_at path =
    if path =s "/healthz"
    then some health
    else if path =s "/readyz"
    then some ready
    else if path =s "/metrics"
    then some metrics
    else if path =s "/v1/audio/transcriptions"
    then some transcribe
    else if path =s "/v1/models"
    then some list_models
    else if path =s "/v1/audio/stream"
    then some stream
    else if path =s "/v1/pipeline/run"
    then some pipeline
    else none

route_at-route_path : (h : Route) → route_at (route_path h) ≡ some h
route_at-route_path health = refl
route_at-route_path ready = refl
route_at-route_path metrics = refl
route_at-route_path transcribe = refl
route_at-route_path list_models = refl
route_at-route_path stream = refl
route_at-route_path pipeline = refl

same_route : (h h' : Route) → route_path h ≡ route_path h' → some h ≡ some h'
same_route h h' e = sym (route_at-route_path h) ∙ ap route_at e ∙ route_at-route_path h'

not_accepted :
    (method path : String)
    → HasPath routes path × ((h : Route) → ¬ IsRegistered routes method path h)
    → (h : Route) × (path ≡ route_path h) × (¬ Accepts h method)
not_accepted method path (p, n) =
    let (h, e) = (path_iff path).0 p in (h, e, λ a. n h ((route_iff h method path).1 (e, a)))

none_given :
    (method path : String) (h : Route)
    → path ≡ route_path h
    → ¬ Accepts h method
    → (h' : Route) → ¬ IsRegistered routes method path h'
none_given method path h e n h' r =
    let (e', a) = (route_iff h' method path).0 r in
    n (
      subst (λ (o : Option Route). elim o [ none ↦ Unit | some x ↦ Accepts x method ])
        (same_route h' h (sym e' ∙ e)) a)

-- The interface of the gateway. A request with a clean path is given to the handler of the path
-- exactly if the path is that of the handler and its method is one that the handler takes, POST
-- for the transcription and for the pipeline, any for the stream, and GET or HEAD for the others;
-- it is answered with status 404 exactly if no handler has the path, and with status 405 exactly
-- if one has and does not take the method.
pub routes_iff :
    (method path : String)
    → ((h : Route)
        → (serve_mux routes method path ≡ handler h) ↔ ((path ≡ route_path h) × Accepts h method))
      × ((serve_mux routes method path ≡ not_found) ↔ ((h : Route) → path ≢ route_path h))
      × ((serve_mux routes method path ≡ method_not_allowed)
          ↔ ((h : Route) × (path ≡ route_path h) × (¬ Accepts h method)))
routes_iff method path =
    let (given, missing, refused) = serve_mux_iff routes method path routes-IsDistinct in
    (
      λ h. ground (arith, given h, route_iff h method path),
      (
        λ e h q. missing.0 e ((path_iff path).1 (h, q)),
        λ n. missing.1 (λ p. let (h, q) = (path_iff path).0 p in n h q),
      ),
      (
        λ e. not_accepted method path (refused.0 e),
        λ (h, q, n). refused.1 ((path_iff path).1 (h, q), none_given method path h q n),
      ),
    )
