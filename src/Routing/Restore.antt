-- ===== src/Routing/Restore.antt =====
-- crates/vpn-engine/src/routing.rs: what an installation and a removal do to the routing table.
use native.Mathlib.Decide.{ℕ_discrete}
use mathlib.Core.Path.{subst}
use yellow_vpn.Ipv4.{Ipv4Addr}
use yellow_vpn.Common.{
  ℕ, ◌≡◌, refl, sym, ap, ◌∙◌, ◌≢◌, ◌⊎◌, inl, inr, Bool, true, false, Option, none, some, List, [],
  ◌∷◌, ◌++◌, Bool-cases, All,
}
use yellow_vpn.Error.{Message, Result, ok, err}
use yellow_vpn.Routing.{
  Route, Handle, RoutingGuard, route_of, delete_all, after_add, install_loop, install_routes,
  remove_all,
}

-- What net-route and the system promise: `add` fails and changes nothing, or adds a route that was
-- not there; `delete` fails and changes nothing, or the route is not there behind it; other routes
-- stay.
pub record RoutingLaws (os : Handle) : Type 0 where
  pub holds : Route → os.Table → Bool
  pub add_failed :
      (r q : Route) (t : os.Table) (e : Message) (t' : os.Table)
      → os.add r t ≡ (some e, t')
      → holds q t' ≡ holds q t
  pub add_new : (r : Route) (t t' : os.Table) → os.add r t ≡ (none, t') → holds r t ≡ false
  pub add_others :
      (r q : Route) (t t' : os.Table) → q ≢ r → os.add r t ≡ (none, t') → holds q t' ≡ holds q t
  pub delete_failed :
      (r q : Route) (t : os.Table) (e : Message) (t' : os.Table)
      → os.delete r t ≡ (some e, t')
      → holds q t' ≡ holds q t
  pub delete_gone : (r : Route) (t t' : os.Table) → os.delete r t ≡ (none, t') → holds r t' ≡ false
  pub delete_others :
      (r q : Route) (t t' : os.Table) → q ≢ r → os.delete r t ≡ (none, t') → holds q t' ≡ holds q t

pub Route-discrete : Discrete Route
Route-discrete = hlevel ℕ_discrete

data In (q : Route) : List Route → Type 0 where
  here : {r : Route} {rs : List Route} → q ≡ r → In q (r ∷ rs)
  there : {r : Route} {rs : List Route} → In q rs → In q (r ∷ rs)

abbrev NotIn : Route → List Route → Type 0
NotIn q = All (λ r. q ≢ r)

In-cases : (q : Route) (rs : List Route) → In q rs ⊎ NotIn q rs
In-cases q [] = inr tt
In-cases q (r ∷ rs) = elim (Route-discrete q r) [
  | yes e ↦ inl (here e)
  | no n ↦ elim (In-cases q rs) [ inl i ↦ inl (there i) | inr o ↦ inr (n, o) ]
]

In-append : (q : Route) (rs : List Route) {r : Route} → In q (rs ++ (r ∷ [])) → In q rs ⊎ (q ≡ r)
In-append q [] (here e) = inr e
In-append q [] (there i) = elim i [ ]
In-append q (x ∷ rs) (here e) = inl (here e)
In-append q (x ∷ rs) (there i) = elim (In-append q rs i) [ inl j ↦ inl (there j) | inr e ↦ inr e ]

NotIn-append :
    (q : Route) (rs : List Route) {r : Route} → NotIn q (rs ++ (r ∷ [])) → NotIn q rs × (q ≢ r)
NotIn-append q [] h = (tt, h.0)
NotIn-append q (x ∷ rs) h = let (o, n) = NotIn-append q rs h.1 in ((h.0, o), n)

module _ (os : Handle) (laws : RoutingLaws os) where
  open os use {Table, add, delete}
  open laws use {holds, add_failed, add_new, add_others, delete_failed, delete_gone, delete_others}

  -- The system refuses to delete the route from a table that holds it.
  abbrev pub Stuck : Route → Type 0
  Stuck q = (u : Table) × (e : Message) × (holds q u ≡ true) × ((delete q u).0 ≡ some e)

  -- A route is held as it was, or it was not there and the system refuses to delete it.
  abbrev pub Back : Route → Table → Table → Type 0
  Back q t₀ t = (holds q t ≡ holds q t₀) ⊎ ((holds q t₀ ≡ false) × Stuck q)

  delete_absent : (q r : Route) (t : Table) → holds q t ≡ false → holds q (delete r t).1 ≡ false
  delete_absent q r t h = go (delete r t) refl
    where
      go : (a : Option Message × Table) → delete r t ≡ a → holds q a.1 ≡ false
      go (some e, t') d = delete_failed r q t e t' d ∙ h
      go (none, t') d = elim (Route-discrete q r) [
        | yes e ↦ rw e (delete_gone r t t' d)
        | no n ↦ delete_others r q t t' n d ∙ h
      ]

  delete_self : (r : Route) (t : Table) → (holds r (delete r t).1 ≡ false) ⊎ Stuck r
  delete_self r t = go (delete r t) refl
    where
      go : (a : Option Message × Table) → delete r t ≡ a → (holds r a.1 ≡ false) ⊎ Stuck r
      go (some e, t') d = elim (Bool-cases (holds r t)) [
        | inl held ↦ inr (t, e, held, ap (λ (o : Option Message × Table). o.0) d)
        | inr absent ↦ inl (delete_failed r r t e t' d ∙ absent)
      ]
      go (none, t') d = inl (delete_gone r t t' d)

  delete_apart : (q r : Route) (t : Table) → q ≢ r → holds q (delete r t).1 ≡ holds q t
  delete_apart q r t n = go (delete r t) refl
    where
      go : (a : Option Message × Table) → delete r t ≡ a → holds q a.1 ≡ holds q t
      go (some e, t') d = delete_failed r q t e t' d
      go (none, t') d = delete_others r q t t' n d

  delete_all_absent :
      (q : Route) (rs : List Route) (t : Table)
      → holds q t ≡ false
      → holds q (delete_all os rs t) ≡ false
  unfolding delete_all
  delete_all_absent q [] t h = h
  delete_all_absent q (r ∷ rs) t h = delete_all_absent q rs (delete r t).1 (delete_absent q r t h)

  delete_all-In :
      (q : Route) {rs : List Route} (t : Table)
      → In q rs
      → (holds q (delete_all os rs t) ≡ false) ⊎ Stuck q
  unfolding delete_all
  delete_all-In q t (here {r} {rs} e) =
      elim (subst (λ x. (holds x (delete r t).1 ≡ false) ⊎ Stuck x) (sym e) (delete_self r t)) [
        | inl gone ↦ inl (delete_all_absent q rs (delete r t).1 gone)
        | inr stuck ↦ inr stuck
      ]
  delete_all-In q t (there {r} i) = delete_all-In q (delete r t).1 i

  delete_all-NotIn :
      (q : Route) (rs : List Route) (t : Table)
      → NotIn q rs
      → holds q (delete_all os rs t) ≡ holds q t
  unfolding delete_all
  delete_all-NotIn q [] t h = refl
  delete_all-NotIn q (r ∷ rs) t h =
      delete_all-NotIn q rs (delete r t).1 h.1 ∙ delete_apart q r t h.0

  -- `t` holds what `t₀` holds, and the routes `rs`, none of which is in `t₀`.
  record Extends (t₀ : Table) (rs : List Route) (t : Table) : Type 0 where
    new : (q : Route) → In q rs → holds q t₀ ≡ false
    others : (q : Route) → NotIn q rs → holds q t ≡ holds q t₀

  Extends-refl : (t : Table) → Extends t [] t
  Extends-refl t = record { new = λ q i. elim i [ ]; others = λ q o. refl }

  Extends-add :
      (t₀ : Table) (rs : List Route) (t : Table) (r : Route) (t' : Table)
      → Extends t₀ rs t
      → add r t ≡ (none, t')
      → Extends t₀ (rs ++ (r ∷ [])) t'
  Extends-add t₀ rs t r t' x h = record {
    new = λ q i. elim (In-append q rs i) [
      | inl j ↦ x.new q j
      | inr e ↦ elim (In-cases r rs) [
        | inl j ↦ rw e (x.new r j)
        | inr o ↦ rw e (sym (x.others r o) ∙ add_new r t t' h)
      ]
    ];
    others = λ q o. let (o', n) = NotIn-append q rs o in add_others r q t t' n h ∙ x.others q o';
  }

  Extends-failed :
      (t₀ : Table) (rs : List Route) (t : Table) (r : Route) (e : Message) (t' : Table)
      → Extends t₀ rs t
      → add r t ≡ (some e, t')
      → Extends t₀ rs t'
  Extends-failed t₀ rs t r e t' x h = record {
    new = x.new;
    others = λ q o. add_failed r q t e t' h ∙ x.others q o;
  }

  Extends-delete_all :
      (t₀ : Table) (rs : List Route) (t : Table)
      → Extends t₀ rs t
      → (q : Route) → Back q t₀ (delete_all os rs t)
  Extends-delete_all t₀ rs t x q = elim (In-cases q rs) [
    | inl i ↦ elim (delete_all-In q t i) [
      | inl gone ↦ inl (gone ∙ sym (x.new q i))
      | inr stuck ↦ inr (x.new q i, stuck)
    ]
    | inr o ↦ inl (delete_all-NotIn q rs t o ∙ x.others q o)
  ]

  -- What is held behind an installation that fails, and behind the removal where it succeeds;
  -- `remove_all` empties the guard.
  abbrev pub Undone : Table → Result RoutingGuard × Table → Type 0
  Undone t₀ (ok g, t) =
      ((q : Route) → Back q t₀ (remove_all os g t).1)
      × ((remove_all os g t).0 ≡ record { routes = [] })
  Undone t₀ (err e, t) = (q : Route) → Back q t₀ t

  install_loop-Undone :
      (t₀ : Table) (i : ℕ) (ds : List (Ipv4Addr × ℕ)) (added : List Route) (t : Table)
      → Extends t₀ added t
      → Undone t₀ (install_loop os i ds added t)
  unfolding install_loop remove_all
  install_loop-Undone t₀ i [] added t x = (Extends-delete_all t₀ added t x, refl)
  install_loop-Undone t₀ i (d ∷ ds) added t x = go (add (route_of i d) t) refl (λ t' h.
      install_loop-Undone t₀ i ds (added ++ (route_of i d ∷ [])) t'
        (Extends-add t₀ added t (route_of i d) t' x h))
    where
      go :
          (a : Option Message × Table)
          → add (route_of i d) t ≡ a
          → ((t' : Table)
              → add (route_of i d) t ≡ (none, t')
              → Undone t₀ (install_loop os i ds (added ++ (route_of i d ∷ [])) t'))
          → Undone t₀ (
              after_add os
                (install_loop os i ds (added ++ (route_of i d ∷ [])))
                (route_of i d)
                added
                a)
      go (none, t') h rest = rest t' h
      go (some e, t') h rest =
          Extends-delete_all t₀ added t' (Extends-failed t₀ added t (route_of i d) e t' x h)

  -- Where the routing table keeps the laws RoutingLaws: behind an installation that fails, and behind
  -- `remove_all` for one that succeeds, each route is held or not as before the installation, but
  -- for a route that was not there before and that the system refuses to delete from a table that
  -- holds it. `remove_all` empties the guard.
  pub install_routes-Undone :
      (opened : Option Message) (i : ℕ) (ds : List (Ipv4Addr × ℕ)) (t : Table)
      → Undone t (install_routes os opened i ds t)
  unfolding install_routes
  install_routes-Undone none i ds t = install_loop-Undone t i ds [] t (Extends-refl t)
  install_routes-Undone (some e) i ds t = λ q. inl refl
