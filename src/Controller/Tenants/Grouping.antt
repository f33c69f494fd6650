-- ===== src/Controller/Tenants/Grouping.antt =====
-- What tenantsFrom of internal/controller/controller.go makes of the tenant clusters.
use mathlib.Core.List.{append_assoc, append-nil}
use vbilling.Prelude.{
  ℕ, ◌+◌, ◌≡◌, ◌∙◌, refl, sym, subst, ap, inl, inr, true, false, Option, none, some, List, [], ◌∷◌,
  ◌++◌, map, arith,
}
use vbilling.Prelude.Tests.{if◌then◌else◌, Bool-cases, Option-cases}
use vbilling.Prelude.Lists.{All, All-mono}
use vbilling.Prelude.Text.{Text, Map, text_eq, text_eq_iff, text_eq_refl, lookup, insert}
use vbilling.Prelude.Order.{sort_by, insert_sorted, Before, Sorted, sort_by-Sorted, All-sort_by}
use vbilling.Prelude.Maps.{lookup-insert, Distinct, insert-Distinct, All-lookup}
use vbilling.Usage.{Tenant}
use vbilling.Discovery.{TenantCluster, external_id, tenant_id}
use vbilling.Controller.Tenants.{
  Billing, clusters_of, join_tenant, tenant_of, group, finish, values, tenants_from,
}

-- How many tenants of a list have an ID.
unfoldable pub count_id : Text → List Tenant → ℕ
unfolding text_eq
count_id id [] = 0
count_id id (t ∷ ts) = (if text_eq t.id id then 1 else 0) + count_id id ts

-- 1 for a list that has an element.
abbrev pub any_of : List TenantCluster → ℕ
any_of [] = 0
any_of (c ∷ cs) = 1

count_id-insert_sorted :
    (id : Text) (t : Tenant) (ts : List Tenant)
    → count_id id (insert_sorted (λ u. u.id) t ts) ≡ count_id id (t ∷ ts)
unfolding count_id insert_sorted
count_id-insert_sorted id t [] = refl
count_id-insert_sorted id t (u ∷ ts) = ground (arith, count_id-insert_sorted id t ts)

count_id-sort_by :
    (id : Text) (ts : List Tenant) → count_id id (sort_by (λ u. u.id) ts) ≡ count_id id ts
unfolding count_id sort_by
count_id-sort_by id [] = refl
count_id-sort_by id (t ∷ ts) =
    ground (arith, count_id-insert_sorted id t (sort_by (λ u. u.id) ts), count_id-sort_by id ts)

count_id-finish_all : (id : Text) (ts : List Tenant) → count_id id (map finish ts) ≡ count_id id ts
unfolding count_id finish
count_id-finish_all id [] = refl
count_id-finish_all id (t ∷ ts) =
    ap (λ n. (if text_eq t.id id then 1 else 0) + n) (count_id-finish_all id ts)

module _ (b : Billing) where
  abbrev pub names : Text → List TenantCluster → List Text
  names k cs = map external_id (clusters_of b.per_project k cs)

  -- What the loop over the clusters has of `all` for an ID when `cs` are left.
  abbrev At : List TenantCluster → List TenantCluster → Text → Option Tenant → Type 0
  At all cs k none = clusters_of b.per_project k cs ≡ clusters_of b.per_project k all
  At all cs k (some t) =
      (t.id ≡ k)
      × (t.clusters ++ names k cs ≡ names k all)
      × (any_of (clusters_of b.per_project k all) ≡ 1)

  At-same :
      (all : List TenantCluster) (c : TenantCluster) (cs : List TenantCluster) (k : Text)
      (o : Option Tenant)
      → text_eq (tenant_id b.per_project c) k ≡ false
      → At all (c ∷ cs) k o
      → At all cs k o
  unfolding clusters_of
  At-same all c cs k none q h = rw q at h
  At-same all c cs k (some t) q h = (h.0, rw q at h.1, h.2)

  At-join :
      (all : List TenantCluster) (c : TenantCluster) (cs : List TenantCluster) (k : Text)
      (m : Map Tenant)
      → text_eq (tenant_id b.per_project c) k ≡ true
      → At all (c ∷ cs) k (lookup k m)
      → At all cs k (some (join_tenant b c (tenant_of b k c m)))
  unfolding clusters_of join_tenant tenant_of
  At-join all c cs k m q h = elim (Option-cases (lookup k m)) [
    | inl e ↦
        let h0 : At all (c ∷ cs) k none = rw e at h in
        let h' : c ∷ clusters_of b.per_project k cs ≡ clusters_of b.per_project k all =
          rw (q, clusters_of) at h0 in
        rw (e, tenant_of) (refl, ap (map external_id) h', sym (ap any_of h'))
    | inr (t, e) ↦
        let h' : At all (c ∷ cs) k (some t) = rw e at h in
        let n : t.clusters ++ external_id c ∷ names k cs ≡ names k all =
          rw (q, clusters_of) at h'.1 in
        rw (e, tenant_of)
          (h'.0, append_assoc t.clusters (external_id c ∷ []) (names k cs) ∙ n, h'.2)
  ]

  -- The loop over the clusters, with `all` the clusters of the whole loop.
  group-At :
      (all cs : List TenantCluster) (m : Map Tenant)
      → Distinct m
      → ((k : Text) → At all cs k (lookup k m))
      → Distinct (group b cs m) × ((k : Text) → At all [] k (lookup k (group b cs m)))
  unfolding group
  group-At all [] m d h = (d, h)
  group-At all (c ∷ cs) m d h =
      let id = tenant_id b.per_project c in
      let t = join_tenant b c (tenant_of b id c m) in
      group-At all cs (insert id t m) (insert-Distinct id t m d) (λ k.
        elim (Bool-cases (text_eq id k)) [
          | inl q ↦
              let p = (text_eq_iff id k).0 q in
              rw (lookup-insert id k t m, q)
                (subst (λ k. At all cs k (some t)) p
                  (At-join all c cs id m (text_eq_refl id) (h id)))
          | inr q ↦ rw (lookup-insert id k t m, q) (At-same all c cs k (lookup k m) q (h k))
        ])

  All-values {κ} : (Q : Tenant → Type κ) (m : Map Tenant) → All (λ e. Q e.1) m → All Q (values m)
  unfolding values
  All-values Q [] h = tt
  All-values Q ((k, t) ∷ m) h = (h.0, All-values Q m h.1)

  All-finish {κ} :
      (Q : Tenant → Type κ) (ts : List Tenant) → All (λ t. Q (finish t)) ts → All Q (map finish ts)
  All-finish Q [] h = tt
  All-finish Q (t ∷ ts) h = (h.0, All-finish Q ts h.1)

  abbrev one : Option Tenant → ℕ
  one none = 0
  one (some t) = 1

  count_id-values :
      (id : Text) (m : Map Tenant)
      → Distinct m
      → All (λ e. e.1.id ≡ e.0) m
      → count_id id (values m) ≡ one (lookup id m)
  unfolding count_id values lookup
  count_id-values id [] d h = refl
  count_id-values id ((k, t) ∷ m) d h =
      let e : text_eq t.id id ≡ text_eq k id = ap (λ x. text_eq x id) h.0 in
      let rec = count_id-values id m d.1 h.1 in
      elim (Bool-cases (text_eq k id)) [
        | inl q ↦
            let n : lookup id m ≡ none =
              ap (λ x. lookup x m) (sym ((text_eq_iff k id).0 q)) ∙ d.0 in
            rw (e, q) (ap (λ x. 1 + x) (rec ∙ ap one n))
        | inr q ↦ rw (e, q) (omega (arith, rec))
      ]

  finish_all-Sorted :
      (ts : List Tenant) → Sorted (λ t. t.id) ts → Sorted (λ t. t.id) (map finish ts)
  unfolding finish
  finish_all-Sorted [] h = tt
  finish_all-Sorted (t ∷ ts) h =
      (All-finish (λ u. Before t.id u.id) ts h.0, finish_all-Sorted ts h.1)

  one-At :
      (cs : List TenantCluster) (k : Text) (o : Option Tenant)
      → At cs [] k o
      → one o ≡ any_of (clusters_of b.per_project k cs)
  unfolding clusters_of
  one-At cs k none h = ap any_of h
  one-At cs k (some t) h = sym h.2

  At-found :
      (cs : List TenantCluster) (k : Text) (t : Tenant)
      → At cs [] k (some t)
      → t.clusters ≡ names t.id cs
  unfolding clusters_of
  At-found cs k t h = sym (append-nil t.clusters) ∙ h.1 ∙ ap (λ x. names x cs) (sym h.0)

  -- tenantsFrom has one tenant for each ID that some cluster is billed to, and none for other IDs; its
  -- clusters are the external IDs of the clusters that ClustersOf finds for the tenant, sorted; and
  -- the tenants are in the order of their IDs.
  pub tenants_from-Grouped :
      (cs : List TenantCluster) (id : Text)
      → (count_id id (tenants_from b cs) ≡ any_of (clusters_of b.per_project id cs))
        × All (λ t. t.clusters ≡ sort_by (λ x. x) (names t.id cs)) (tenants_from b cs)
        × Sorted (λ t. t.id) (tenants_from b cs)
  unfolding tenants_from finish
  tenants_from-Grouped cs id =
      let (d, at) = group-At cs cs [] tt (λ k. refl) in
      let m = group b cs [] in
      let ts = sort_by (λ t. t.id) (values m) in
      let found : (k : Text) (t : Tenant) → lookup k m ≡ some t → At cs [] k (some t) =
        λ k t e. subst (λ o. At cs [] k o) e (at k) in
      let keyed = All-lookup (λ k t. t.id ≡ k) m d (λ k t e. (found k t e).0) in
      let own =
        All-lookup (λ k t. t.clusters ≡ names t.id cs) m d
          (λ k t e. At-found cs k t (found k t e)) in
      (
        count_id-finish_all id ts
            ∙ count_id-sort_by id (values m)
            ∙ count_id-values id m d keyed
            ∙ one-At cs id (lookup id m) (at id),
        All-finish (λ t. t.clusters ≡ sort_by (λ x. x) (names t.id cs)) ts
            (All-mono ts (λ t h. ap (sort_by (λ x. x)) h)
              (All-sort_by (λ t. t.id) (λ t. t.clusters ≡ names t.id cs) (values m)
                (All-values (λ t. t.clusters ≡ names t.id cs) m own))),
        finish_all-Sorted ts (sort_by-Sorted (λ t. t.id) (values m)),
      )
