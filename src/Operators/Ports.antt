-- ===== src/Operators/Ports.antt =====
-- The repositories of the ports: registration, and the batches that are added to several of them.
use mathlib.Core.Path.{subst}
use mathlib.Core.List.{append-nil, append_assoc}
use cu_cascade.Base.{
  ℕ, zero, suc, ◌≡◌, refl, sym, ap, ◌∙◌, true, false, Option, none, some, List, [], ◌∷◌, ◌++◌,
  if◌then◌else◌, arith, Bool-cases, All, inl, inr, runtime_error, out_of_range, null_dereference,
  Result, ok, err, get_or,
}
use cu_cascade.Repository.{Pointer, Repository}
use cu_cascade.Repository.Contents.{add_appends}
use cu_cascade.Operators.{
  OperatorPortKey, key_eq, equivalent, Repositories, find_repository, put_repository,
  DataRepositoryManager, add_new_repository, add_to, add_shared, get_repository,
}
use cu_cascade.Operators.Order.{equivalent-key_eq, key_eq-path, key_eq_refl, key_eq-sym}

equivalent-path : (a b : OperatorPortKey) → equivalent a b ≡ true → a ≡ b
equivalent-path a b h = key_eq-path a b (sym (equivalent-key_eq a b) ∙ h)

find-put :
    (rs : Repositories) (key k : OperatorPortKey) (r : Option Repository)
    → find_repository (put_repository rs key r) k
      ≡ (if key_eq key k then some r else find_repository rs k)
find-put [] key k r = rw (equivalent-key_eq key k) refl
find-put ((j, q) ∷ rs) key k r = elim (Bool-cases (key_eq j key)) [
  | inl h ↦
      rw (equivalent-key_eq j key, h, equivalent-key_eq j k, key_eq-path j key h)
        (elim (Bool-cases (key_eq key k)) [ inl e ↦ rw e refl | inr e ↦ rw e refl ])
  | inr h ↦ elim (Bool-cases (key_eq j k)) [
    | inl e ↦
        let other : key_eq key k ≡ false =
          key_eq-sym key k ∙ subst (λ x. key_eq x key ≡ false) (key_eq-path j k e) h in
        rw (equivalent-key_eq j key, h, equivalent-key_eq j k, e, other) refl
    | inr e ↦ rw (equivalent-key_eq j key, h, equivalent-key_eq j k, e) (find-put rs key k r)
  ]
]

added_repository :
    (m m' : DataRepositoryManager) (key : OperatorPortKey) (r : Option Repository)
    (o : Option (Option Repository))
    → elim o as (λ x. Result DataRepositoryManager) [
      | some old ↦ err runtime_error
      | none ↦ ok (record m { repositories = put_repository m.repositories key r })
    ]
      ≡ ok m'
    → (o ≡ none) × (record m { repositories = put_repository m.repositories key r } ≡ m')
added_repository m m' key r none e = (refl, cc)
added_repository m m' key r (some x) e = cc

-- `add_new_repository` succeeds only for a port that has no repository. `get_repository`, which threw for the port before,
-- then returns the new one, and for any other port what it did before; to add another one for the port throws.
pub add_new-get :
    (m m' : DataRepositoryManager) (key : OperatorPortKey) (r q : Option Repository)
    → add_new_repository m key r ≡ ok m'
    → (get_repository m key ≡ err out_of_range)
      × (get_repository m' key ≡ ok r)
      × ((k : OperatorPortKey) → key_eq key k ≡ false → get_repository m' k ≡ get_repository m k)
      × (add_new_repository m' key q ≡ err runtime_error)
unfolding add_new_repository get_repository
add_new-get m m' key r q e =
    let (free, same) = added_repository m m' key r (find_repository m.repositories key) e in
    let there : find_repository m'.repositories key ≡ some r =
      subst (λ (x : DataRepositoryManager). find_repository x.repositories key ≡ some r) same
        (find-put m.repositories key key r ∙ rw (key_eq_refl key) refl) in
    (
      rw (free, get_repository) refl,
      rw (there, get_repository) refl,
      λ k n.
          subst (λ (x : DataRepositoryManager). get_repository x k ≡ get_repository m k) same
            (rw (get_repository, find-put m.repositories key k r, n) refl),
      rw (there, add_new_repository) refl,
    )

-- The port has a repository that is not null.
abbrev pub IsReady : DataRepositoryManager → OperatorPortKey → Type 0
IsReady m key = (r : Repository) × (find_repository m.repositories key ≡ some (some r))

-- The batches that wait at a port, in a partition.
abbrev pub queue_of : Option (Option Repository) → ℕ → List Pointer
queue_of none p = []
queue_of (some none) p = []
queue_of (some (some r)) p = get_or r.data_batches p []

abbrev pub queue : DataRepositoryManager → OperatorPortKey → ℕ → List Pointer
queue m key p = queue_of (find_repository m.repositories key) p

-- A batch, once for each time that a port is named, in the first partition.
abbrev pub copies : Pointer → List OperatorPortKey → OperatorPortKey → ℕ → List Pointer
copies batch [] key p = []
copies batch (op ∷ ops) key (suc p) = []
copies batch (op ∷ ops) key zero =
    if key_eq op key then batch ∷ copies batch ops key zero else copies batch ops key zero

no_copies :
    (batch : Pointer) (ops : List OperatorPortKey) (key : OperatorPortKey) (p : ℕ)
    → copies batch ops key (suc p) ≡ []
no_copies batch [] key p = refl
no_copies batch (op ∷ ops) key p = refl

-- The batch goes to the first partition of one port.
abbrev Queued : DataRepositoryManager → Pointer → OperatorPortKey → Repository → Type 0
Queued m batch key r' =
    (get_or r'.data_batches 0 [] ≡ queue m key 0 ++ batch ∷ [])
    × ((p : ℕ) → get_or r'.data_batches (suc p) [] ≡ queue m key (suc p))

add_to-appends :
    (m : DataRepositoryManager) (batch : Pointer) (key : OperatorPortKey)
    → IsReady m key
    → (m' : DataRepositoryManager) × (r' : Repository) × (add_to m batch key ≡ ok m')
      × ((k : OperatorPortKey)
          → find_repository m'.repositories k
            ≡ (if key_eq key k then some (some r') else find_repository m.repositories k))
      × Queued m batch key r'
unfolding add_to
add_to-appends m batch key (r, e) =
    let (t, a, post) = add_appends (record { store = m.store; repo = r }) batch 0 (omega arith) in
    (
      record m { repositories = put_repository m.repositories key (some t.repo); store = t.store },
      t.repo,
      rw (add_to, e, a) refl,
      λ k. find-put m.repositories key k (some t.repo),
      (post.appended ∙ rw e refl, λ p. post.others (suc p) (λ z. absurd (omega arith)) ∙ rw e refl),
    )

to_queue :
    (m m' : DataRepositoryManager) (batch : Pointer) (key k : OperatorPortKey) (r' : Repository)
    (p : ℕ)
    → find_repository m'.repositories k
      ≡ (if key_eq key k then some (some r') else find_repository m.repositories k)
    → Queued m batch key r'
    → queue m' k p ≡ queue m k p ++ copies batch (key ∷ []) k p
to_queue m m' batch key k r' zero e (q, o) = elim (Bool-cases (key_eq key k)) [
  | inl h ↦ rw (e, h) (q ∙ ap (λ x. queue m x 0 ++ batch ∷ []) (key_eq-path key k h))
  | inr h ↦ rw (e, h) (sym (append-nil (queue m k 0)))
]
to_queue m m' batch key k r' (suc p) e (q, o) = elim (Bool-cases (key_eq key k)) [
  | inl h ↦
      rw (e, h)
        (o p
          ∙ ap (λ x. queue m x (suc p)) (key_eq-path key k h)
          ∙ sym (append-nil (queue m k (suc p))))
  | inr h ↦ rw (e, h) (sym (append-nil (queue m k (suc p))))
]

IsReady-add_to :
    (m m' : DataRepositoryManager) (key k : OperatorPortKey) (r' : Repository)
    → find_repository m'.repositories k
      ≡ (if key_eq key k then some (some r') else find_repository m.repositories k)
    → IsReady m k
    → IsReady m' k
IsReady-add_to m m' key k r' e (r, h) = elim (Bool-cases (key_eq key k)) [
  | inl q ↦ (r', rw (e, q) refl)
  | inr q ↦ (r, rw (e, q) h)
]

All-map {κ ℓ} :
    {A : Type ℓ} (P Q : A → Type κ) (xs : List A) → ((a : A) → P a → Q a) → All P xs → All Q xs
All-map P Q [] f h = tt
All-map P Q (x ∷ xs) f h = (f x h.0, All-map P Q xs f h.1)

copies_more :
    (batch : Pointer) (op : OperatorPortKey) (ops : List OperatorPortKey) (k : OperatorPortKey)
    (p : ℕ)
    → copies batch (op ∷ []) k p ++ copies batch ops k p ≡ copies batch (op ∷ ops) k p
copies_more batch op ops k zero = elim (Bool-cases (key_eq op k)) [
  | inl h ↦ rw h refl
  | inr h ↦ rw h refl
]
copies_more batch op ops k (suc p) = no_copies batch ops k p

-- A shared batch that is added for ports that all have a repository goes to the end of each one's first partition, as
-- many times as the port is named. No other partition of these ports, and no partition of any other port, changes.
pub add_shared-copies :
    (m : DataRepositoryManager) (batch : Pointer) (ops : List OperatorPortKey)
    → All (IsReady m) ops
    → (m' : DataRepositoryManager) × (add_shared m batch ops ≡ ok m')
      × ((k : OperatorPortKey) (p : ℕ) → queue m' k p ≡ queue m k p ++ copies batch ops k p)
unfolding add_shared
add_shared-copies m batch [] h = (m, refl, λ k p. sym (append-nil (queue m k p)))
add_shared-copies m batch (op ∷ ops) h =
    let (m1, r', e, f, q) = add_to-appends m batch op h.0 in
    let (m', e', w) =
      add_shared-copies m1 batch ops
        (All-map (IsReady m) (IsReady m1) ops (λ k. IsReady-add_to m m1 op k r' (f k)) h.1) in
    (
      m',
      rw (e) e',
      λ k p.
          w k p
          ∙ ap (λ x. x ++ copies batch ops k p) (to_queue m m1 batch op k r' p (f k) q)
          ∙ append_assoc (queue m k p) (copies batch (op ∷ []) k p) (copies batch ops k p)
          ∙ ap (λ x. queue m k p ++ x) (copies_more batch op ops k p),
    )

missing :
    (m m' : DataRepositoryManager) (key k : OperatorPortKey) (r' : Repository)
    → find_repository m'.repositories k
      ≡ (if key_eq key k then some (some r') else find_repository m.repositories k)
    → IsReady m key
    → find_repository m.repositories k ≡ none
    → find_repository m'.repositories k ≡ none
missing m m' key k r' e (r, h) n = elim (Bool-cases (key_eq key k)) [
  | inl q ↦ cc (key_eq-path key k q)
  | inr q ↦ rw (e, q) n
]

-- If one of the ports has no repository, and those named before it have one, the call dereferences a null pointer,
-- whichever ports are named after it, where `get_repository` throws for that port.
pub add_shared-missing :
    (m : DataRepositoryManager) (batch : Pointer) (ops rest : List OperatorPortKey)
    (op : OperatorPortKey)
    → All (IsReady m) ops
    → find_repository m.repositories op ≡ none
    → (add_shared m batch (ops ++ op ∷ rest) ≡ err null_dereference)
      × (get_repository m op ≡ err out_of_range)
unfolding add_shared add_to get_repository
add_shared-missing m batch [] rest op h n = (rw (n, add_to) refl, rw (n, get_repository) refl)
add_shared-missing m batch (o ∷ ops) rest op h n =
    let (m1, r', e, f, p) = add_to-appends m batch o h.0 in
    let later =
      add_shared-missing m1 batch ops rest op
        (All-map (IsReady m) (IsReady m1) ops (λ k. IsReady-add_to m m1 o k r' (f k)) h.1)
        (missing m m1 o op r' (f op) h.0 n) in
    (rw e later.0, rw (n, get_repository) refl)
