-- ===== src/DhcpServer/Config.antt =====
-- What `Update` of internal/provider/dhcp_server_resource.go takes for a change of the
-- configuration.
use terraform_provider_zedam.Prelude.{
  Bool, true, false, ◌||◌, not, List, [], ◌∷◌, ◌≡◌, ◌↔◌, refl, ap, ap₂, subst, arith, ==_refl, ==→≡,
}
use terraform_provider_zedam.Prelude.Int.{ℤ, pos, negsuc}
use terraform_provider_zedam.Text.{Text}
use terraform_provider_zedam.Text.Laws.{=ᵗ_refl, =ᵗ→≡}
use terraform_provider_zedam.Attr.{Attr, null, unknown, known, same_int, same_int64}
use terraform_provider_zedam.Daemon.Handlers.{same_text}
use terraform_provider_zedam.DhcpServer.{
  PoolModel, StaticRouteModel, DhcpServerModel, equal_static_routes, same_pool, config_changed,
}

pub same_text_refl : (v : Attr Text) → same_text v v ≡ true
same_text_refl null = refl
same_text_refl unknown = refl
same_text_refl (known s) = =ᵗ_refl s

pub same_text→≡ : (v w : Attr Text) → same_text v w ≡ true → v ≡ w
same_text→≡ null null h = refl
same_text→≡ null unknown h = absurd cc
same_text→≡ null (known t) h = absurd cc
same_text→≡ unknown null h = absurd cc
same_text→≡ unknown unknown h = refl
same_text→≡ unknown (known t) h = absurd cc
same_text→≡ (known s) null h = absurd cc
same_text→≡ (known s) unknown h = absurd cc
same_text→≡ (known s) (known t) h = ap known (=ᵗ→≡ s t h)

same_int_refl : (a : ℤ) → same_int a a ≡ true
same_int_refl (pos a) = ==_refl a
same_int_refl (negsuc a) = ==_refl a

same_int→≡ : (a b : ℤ) → same_int a b ≡ true → a ≡ b
same_int→≡ (pos a) (pos b) h = ap pos (==→≡ a b h)
same_int→≡ (pos a) (negsuc b) h = absurd cc
same_int→≡ (negsuc a) (pos b) h = absurd cc
same_int→≡ (negsuc a) (negsuc b) h = ap negsuc (==→≡ a b h)

pub same_int64_refl : (v : Attr ℤ) → same_int64 v v ≡ true
same_int64_refl null = refl
same_int64_refl unknown = refl
same_int64_refl (known a) = same_int_refl a

pub same_int64→≡ : (v w : Attr ℤ) → same_int64 v w ≡ true → v ≡ w
same_int64→≡ null null h = refl
same_int64→≡ null unknown h = absurd cc
same_int64→≡ null (known b) h = absurd cc
same_int64→≡ unknown null h = absurd cc
same_int64→≡ unknown unknown h = refl
same_int64→≡ unknown (known b) h = absurd cc
same_int64→≡ (known a) null h = absurd cc
same_int64→≡ (known a) unknown h = absurd cc
same_int64→≡ (known a) (known b) h = ap known (same_int→≡ a b h)

same_pool→≡ : (p q : PoolModel) → same_pool p q ≡ true → p ≡ q
same_pool→≡ p q h =
    let e : p.start ≡ q.start = same_text→≡ p.start q.start (ground arith) in
    let f : p.end ≡ q.end = same_text→≡ p.end q.end (ground arith) in
    ap₂ (λ s t. record { start = s; end = t }) e f

routes→≡ : (a b : List StaticRouteModel) → equal_static_routes a b ≡ true → a ≡ b
unfolding equal_static_routes
routes→≡ [] [] h = refl
routes→≡ [] (s ∷ b) h = absurd cc
routes→≡ (r ∷ a) [] h = absurd cc
routes→≡ (r ∷ a) (s ∷ b) h =
    let e : r.to ≡ s.to = same_text→≡ r.to s.to (ground arith) in
    let f : r.via ≡ s.via = same_text→≡ r.via s.via (ground arith) in
    let g : r ≡ s = ap₂ (λ t v. record { to = t; via = v }) e f in
    ap₂ (λ x xs. x ∷ xs) g (routes→≡ a b (ground arith))

routes_refl : (a : List StaticRouteModel) → equal_static_routes a a ≡ true
unfolding equal_static_routes
routes_refl [] = refl
routes_refl (r ∷ a) = ground (arith, same_text_refl r.to, same_text_refl r.via, routes_refl a)

-- The two models agree in all that `Update` compares, with the pools `p` and `q`.
abbrev pub SameConfig : DhcpServerModel → DhcpServerModel → PoolModel → PoolModel → Type 0
SameConfig plan state p q =
    (plan.interface ≡ state.interface)
    × (plan.server_id ≡ state.server_id)
    × (plan.name_server ≡ state.name_server)
    × (plan.router ≡ state.router)
    × (plan.netmask ≡ state.netmask)
    × (p ≡ q)
    × (plan.lease_time ≡ state.lease_time)
    × (plan.static_routes ≡ state.static_routes)

pub same_text_eq : (v w : Attr Text) → v ≡ w → same_text v w ≡ true
same_text_eq v w e = subst (λ x. same_text v x ≡ true) e (same_text_refl v)

pub same_int64_eq : (v w : Attr ℤ) → v ≡ w → same_int64 v w ≡ true
same_int64_eq v w e = subst (λ x. same_int64 v x ≡ true) e (same_int64_refl v)

same_pool_eq : (p q : PoolModel) → p ≡ q → same_pool p q ≡ true
same_pool_eq p q e = ground (
  arith,
  same_text_eq p.start q.start (ap (λ r. r.start) e),
  same_text_eq p.end q.end (ap (λ r. r.end) e),
)

routes_eq : (a b : List StaticRouteModel) → a ≡ b → equal_static_routes a b ≡ true
routes_eq a b e = subst (λ x. equal_static_routes a x ≡ true) e (routes_refl a)

peel : (a b : Bool) → (a || not b) ≡ false → (a ≡ false) × (b ≡ true)
peel false false h = absurd cc
peel false true h = (refl, refl)
peel true b h = absurd cc

not-false : (b : Bool) → not b ≡ false → b ≡ true
not-false false h = absurd cc
not-false true h = refl

config_changed→same :
    (plan state : DhcpServerModel) (p q : PoolModel)
    → config_changed plan state p q ≡ false
    → SameConfig plan state p q
unfolding config_changed
config_changed→same plan state p q h =
    let (h7, r) = peel _ (equal_static_routes plan.static_routes state.static_routes) h in
    let (h6, g) = peel _ (same_int64 plan.lease_time state.lease_time) h7 in
    let (h5, f) = peel _ (same_pool p q) h6 in
    let (h4, e) = peel _ (same_text plan.netmask state.netmask) h5 in
    let (h3, d) = peel _ (same_text plan.router state.router) h4 in
    let (h2, c) = peel _ (same_text plan.name_server state.name_server) h3 in
    let (h1, b) = peel _ (same_text plan.server_id state.server_id) h2 in
    let a = not-false (same_text plan.interface state.interface) h1 in
    (
      same_text→≡ plan.interface state.interface a,
      same_text→≡ plan.server_id state.server_id b,
      same_text→≡ plan.name_server state.name_server c,
      same_text→≡ plan.router state.router d,
      same_text→≡ plan.netmask state.netmask e,
      same_pool→≡ p q f,
      same_int64→≡ plan.lease_time state.lease_time g,
      routes→≡ plan.static_routes state.static_routes r,
    )

same→unchanged :
    (plan state : DhcpServerModel) (p q : PoolModel)
    → SameConfig plan state p q
    → config_changed plan state p q ≡ false
unfolding config_changed
same→unchanged plan state p q (a, b, c, d, e, f, g, r) = ground (
  arith,
  same_text_eq plan.interface state.interface a,
  same_text_eq plan.server_id state.server_id b,
  same_text_eq plan.name_server state.name_server c,
  same_text_eq plan.router state.router d,
  same_text_eq plan.netmask state.netmask e,
  same_pool_eq p q f,
  same_int64_eq plan.lease_time state.lease_time g,
  routes_eq plan.static_routes state.static_routes r,
)

-- `Update` sees no change exactly if the two models agree in the interface, the server, the name
-- server, the router, the netmask, the pool, the lease time and the list of static routes, in
-- their order; the files, the namespace and the state may differ.
pub config_changed_iff :
    (plan state : DhcpServerModel) (p q : PoolModel)
    → (config_changed plan state p q ≡ false) ↔ SameConfig plan state p q
config_changed_iff plan state p q =
    (config_changed→same plan state p q, same→unchanged plan state p q)
