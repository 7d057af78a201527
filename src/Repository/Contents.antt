-- ===== src/Repository/Contents.antt =====
-- What a repository holds: insertion, sizes, ids, and the search by id.
use mathlib.Core.Path.{subst}
use cu_cascade.Base.{
  ==_iff, ℕ, zero, suc, ◌+◌, ◌-◌, ◌%◌, ◌≤◌, ◌<◌, ◌≡◌, refl, ap, ◌∙◌, ◌⊎◌, inl, inr, ◌≢◌, ◌↔◌, Bool,
  true, false, none, some, List, [], ◌∷◌, ◌++◌, set, get_or, ok, err, arith, Bool-cases, ℕ_discrete,
  lt→ltb, Result, ◌>>=◌, length, leb, ltb, ◌==◌, if◌then◌else◌, replicate, take, length-append,
  length-replicate, length-set, get_or-set_self, get_or-set_ne, max,
}
use cu_cascade.Base.Words.{word_size, add64}
use cu_cascade.Batch.{set_state_change_cv}
use cu_cascade.Repository.{
  Pointer, Store, System, partition, with_partition, popped, resize, add_data_batch, find_id, Split,
  pop_data_batch_by_id, get_batch_ids, total_size, all_empty, num_partitions, watch, without,
  sum_of_lengths, none_in, take_id, ids_of,
}

-- A repository reports `all_empty` exactly if its total size is 0.
pub all_empty_iff : (s : System) → (all_empty s ≡ true) ↔ (total_size s ≡ 0)
unfolding all_empty total_size
all_empty_iff s = go s.repo.data_batches
  where
    go : (pss : List (List Pointer)) → (none_in pss ≡ true) ↔ (sum_of_lengths pss ≡ 0)
    go [] = (λ h. refl, λ h. refl)
    go ([] ∷ pss) = (λ h. omega (arith, (go pss).0 h), λ h. (go pss).1 (omega arith))
    go ((p ∷ ps) ∷ pss) = (λ h. cc, λ h. absurd (omega arith))

take_all : (pss : List (List Pointer)) (n : ℕ) → length pss ≤ n → take n pss ≡ pss
take_all [] zero h = refl
take_all [] (suc n) h = refl
take_all (p ∷ pss) zero h = elim h [ ]
take_all (p ∷ pss) (suc n) h = ap (◌∷◌ p) (take_all pss n (omega arith))

get_or-append :
    (pss : List (List Pointer)) (n i : ℕ) → get_or (pss ++ replicate n []) i [] ≡ get_or pss i []
get_or-append [] zero i = refl
get_or-append [] (suc n) zero = refl
get_or-append [] (suc n) (suc i) = get_or-append [] n i
get_or-append (p ∷ pss) n zero = refl
get_or-append (p ∷ pss) n (suc i) = get_or-append pss n i

grown : (pss : List (List Pointer)) → ℕ → List (List Pointer)
grown pss idx = if leb (length pss) idx then resize pss (add64 idx 1) else pss

length-grown :
    (pss : List (List Pointer)) (idx : ℕ)
    → suc idx < word_size
    → length (grown pss idx) ≡ max (length pss) (suc idx)
unfolding grown resize add64
length-grown pss idx w = elim (Bool-cases (leb (length pss) idx)) [
  | inl e ↦ rw e (
      ground (
        arith,
        take_all pss ((idx + 1) % word_size),
        length-append {0} pss (replicate ((idx + 1) % word_size - length pss) []),
        length-replicate {0} {A = List Pointer} ((idx + 1) % word_size - length pss) [],
      ))
  | inr e ↦ ground arith
]

partition-grown :
    (pss : List (List Pointer)) (idx j : ℕ)
    → suc idx < word_size
    → get_or (grown pss idx) j [] ≡ get_or pss j []
unfolding grown resize add64
partition-grown pss idx j w = elim (Bool-cases (leb (length pss) idx)) [
  | inl e ↦ rw e (
      ground (
        arith,
        take_all pss ((idx + 1) % word_size),
        get_or-append pss ((idx + 1) % word_size - length pss) j,
      ))
  | inr e ↦ rw e refl
]

sum-grown :
    (pss : List (List Pointer)) (idx : ℕ)
    → suc idx < word_size
    → sum_of_lengths (grown pss idx) ≡ sum_of_lengths pss
unfolding grown resize add64
sum-grown pss idx w = elim (Bool-cases (leb (length pss) idx)) [
  | inl e ↦ rw e (
      ground (
        arith,
        take_all pss ((idx + 1) % word_size),
        padded pss ((idx + 1) % word_size - length pss),
      ))
  | inr e ↦ rw e refl
]
  where
    padded :
        (xs : List (List Pointer)) (n : ℕ)
        → sum_of_lengths (xs ++ replicate n []) ≡ sum_of_lengths xs
    padded [] zero = refl
    padded [] (suc n) = omega (arith, padded [] n)
    padded (p ∷ xs) n = omega (arith, padded xs n)

sum-push :
    (pss : List (List Pointer)) (i : ℕ) (b : Pointer)
    → i < length pss
    → sum_of_lengths (set pss i (get_or pss i [] ++ b ∷ [])) ≡ suc (sum_of_lengths pss)
sum-push [] i b h = absurd (omega arith)
sum-push (p ∷ pss) zero b h = omega (arith, length-append {0} p (b ∷ []))
sum-push (p ∷ pss) (suc i) b h = omega (arith, sum-push pss i b (omega arith))

-- The batch is the last of its partition; the others, and the other batches, are as they were.
pub record Added (s : System) (batch : Pointer) (idx : ℕ) (t : System) : Type 0 where
  pub appended : partition t idx ≡ partition s idx ++ batch ∷ []
  pub others : (j : ℕ) → idx ≢ j → partition t j ≡ partition s j
  pub partitions : num_partitions t ≡ max (num_partitions s) (suc idx)
  pub one_more : total_size t ≡ suc (total_size s)
  pub watched :
      (i : ℕ) → batch ≡ some i → t.store i ≡ set_state_change_cv (s.store i) (some s.repo.cv)
  pub unwatched : (i : ℕ) → batch ≢ some i → t.store i ≡ s.store i

added : System → Pointer → ℕ → System
added s b idx =
    with_partition
      (record {
        store = watch s.store s.repo.cv b;
        repo = record { data_batches = grown s.repo.data_batches idx; cv = s.repo.cv };
      })
      idx (get_or (grown s.repo.data_batches idx) idx [] ++ b ∷ [])

watch_at :
    (store : Store) (cv : ℕ) (b : Pointer) (i : ℕ)
    → (b ≡ some i → watch store cv b i ≡ set_state_change_cv (store i) (some cv))
      × (b ≢ some i → watch store cv b i ≡ store i)
watch_at store cv none i = (λ e. cc, λ n. refl)
watch_at store cv (some k) i = elim (ℕ_discrete k i) [
  | yes e ↦ (λ q. ground arith, λ n. absurd (n (ap some e)))
  | no e ↦ (λ q. ground arith, λ n. ground arith)
]

added-Added :
    (s : System) (batch : Pointer) (idx : ℕ)
    → suc idx < word_size
    → Added s batch idx (added s batch idx)
unfolding added num_partitions total_size
added-Added s b idx w =
    let pss = s.repo.data_batches in
    let fits : idx < length (grown pss idx) = omega (arith, length-grown pss idx w) in
    record {
      appended =
          get_or-set_self (grown pss idx) idx _ [] fits
          ∙ ap (λ ps. ps ++ b ∷ []) (partition-grown pss idx idx w);
      others = λ j n. get_or-set_ne (grown pss idx) idx j _ [] n ∙ partition-grown pss idx j w;
      partitions = length-set (grown pss idx) idx _ ∙ length-grown pss idx w;
      one_more = sum-push (grown pss idx) idx b fits ∙ ap suc (sum-grown pss idx w);
      watched = λ i e. (watch_at s.store s.repo.cv b i).0 e;
      unwatched = λ i n. (watch_at s.store s.repo.cv b i).1 n;
    }

add-added :
    (s : System) (batch : Pointer) (idx : ℕ)
    → suc idx < word_size
    → add_data_batch s batch idx ≡ ok (added s batch idx)
unfolding add_data_batch added grown
add-added s b idx w =
    let fits : ltb idx (length (grown s.repo.data_batches idx)) ≡ true =
      lt→ltb _ _ (omega (arith, length-grown s.repo.data_batches idx w)) in
    rw fits

-- An added batch, with an index whose successor does not wrap, goes to the end of its partition, which
-- is made if it is not there; the other partitions stay, and one batch more is in the repository. The
-- batch, if the pointer is not null, notifies the repository from now on; no other batch changes.
pub add_appends :
    (s : System) (batch : Pointer) (idx : ℕ)
    → suc idx < word_size
    → (t : System) × (add_data_batch s batch idx ≡ ok t) × Added s batch idx t
add_appends s batch idx w = (added s batch idx, add-added s batch idx w, added-Added s batch idx w)

abbrev pub contains : ℕ → List ℕ → Bool
contains id [] = false
contains id (x ∷ xs) = if x == id then true else contains id xs

-- The list without the first `id`.
abbrev pub erase : ℕ → List ℕ → List ℕ
erase id [] = []
erase id (x ∷ xs) = if x == id then xs else x ∷ erase id xs

FindsIn : Store → ℕ → List Pointer → List ℕ → Type 0
FindsIn store id ps ids =
    ((find_id store id ps ≡ ok none) × (contains id ids ≡ false))
    ⊎ ((f : Split) × (find_id store id ps ≡ ok (some f))
        × ((store f.batch).batch_id ≡ id)
        × (contains id ids ≡ true)
        × (ids_of store (without f) ≡ ok (erase id ids)))

-- One pointer more in front.
cons-FindsIn :
    (store : Store) (id i : ℕ) (ps : List Pointer) (xs : List ℕ)
    → ids_of store ps ≡ ok xs
    → FindsIn store id ps xs
    → FindsIn store id (some i ∷ ps) ((store i).batch_id ∷ xs)
unfolding FindsIn find_id ids_of
cons-FindsIn store id i ps xs h rest = elim (Bool-cases ((store i).batch_id == id)) [
  | inl hit ↦ inr (
    record { before = []; batch = i; behind = ps },
    rw hit refl,
    (==_iff _ id).0 hit,
    rw hit refl,
    rw hit h,
  )
  | inr miss ↦ elim rest [
    | inl (e, c) ↦ inl (rw miss (rw e refl), rw miss c)
    | inr (f, e, b, c, l) ↦ inr (
      record f { before = some i ∷ f.before },
      rw miss (rw e refl),
      b,
      rw miss c,
      rw miss (rw l refl),
    )
  ]
]

find-ids :
    (store : Store) (id : ℕ) (ps : List Pointer) (ids : List ℕ)
    → ids_of store ps ≡ ok ids
    → FindsIn store id ps ids
unfolding FindsIn find_id ids_of
find-ids store id [] ids h = inl (refl, ground arith)
find-ids store id (none ∷ ps) ids h = cc
find-ids store id (some i ∷ ps) ids h = go (find-ids store id ps) (ids_of store ps) refl h
  where
    go :
        ((xs : List ℕ) → ids_of store ps ≡ ok xs → FindsIn store id ps xs)
        → (r : Result (List ℕ)) → ids_of store ps ≡ r
        → (r >>= λ xs. ok ((store i).batch_id ∷ xs)) ≡ ok ids
        → FindsIn store id (some i ∷ ps) ids
    go ih (err e) k m = cc
    go ih (ok xs) k m =
        subst (FindsIn store id (some i ∷ ps)) {x = (store i).batch_id ∷ xs} (cc)
          (cons-FindsIn store id i ps xs k (ih xs k))

erase_absent : (id : ℕ) (ids : List ℕ) → contains id ids ≡ false → erase id ids ≡ ids
erase_absent id [] c = refl
erase_absent id (x ∷ xs) c = ground (arith, erase_absent id xs)

-- What `pop_data_batch_by_id` with no target state leaves, given the ids in the partition.
pub record PoppedId (s : System) (id idx : ℕ) (ids : List ℕ) (t : System) (p : Pointer)
    : Type 0 where
  pub erased : get_batch_ids t idx ≡ ok (erase id ids)
  pub hit : contains id ids ≡ true → (i : ℕ) × (p ≡ some i) × ((s.store i).batch_id ≡ id)
  pub miss : contains id ids ≡ false → (p ≡ none) × (t ≡ s)
  pub same_batches : t.store ≡ s.store
  pub others : (j : ℕ) → idx ≢ j → partition t j ≡ partition s j

-- `pop_data_batch_by_id` with no target state, on a partition with no null pointer, agrees with the ids
-- that `get_batch_ids` lists: it takes out the first batch with the id, or returns null with nothing
-- changed if there is none. It does not block, and changes no batch and no other partition.
pub pop_id-erase :
    (wakes : List (System → System)) (s : System) (id idx : ℕ) (ids : List ℕ)
    → get_batch_ids s idx ≡ ok ids
    → (t : System) × (p : Pointer) × (pop_data_batch_by_id wakes s id none idx ≡ ok (popped t p))
      × PoppedId s id idx ids t p
unfolding pop_data_batch_by_id get_batch_ids take_id FindsIn
pop_id-erase wakes s id idx ids h = elim (Bool-cases (leb (length s.repo.data_batches) idx)) [
  | inl out ↦ cc (rw out at h)
  | inr fits ↦ elim (find-ids s.store id (partition s idx) ids (rw fits at h)) [
    | inl (e, c) ↦ (
      s,
      none,
      rw fits (rw e refl),
      record {
        erased = rw (erase_absent id ids c) h;
        hit = λ k. cc;
        miss = λ k. (refl, refl);
        same_batches = refl;
        others = λ j n. refl;
      },
    )
    | inr (f, e, b, c, l) ↦ (
      with_partition s idx (without f),
      some f.batch,
      rw fits (rw e refl),
      record {
        erased = rw (length-set s.repo.data_batches idx (without f)) (
            rw fits (rw (get_or-set_self s.repo.data_batches idx (without f) [] (ground arith)) l));
        hit = λ k. (f.batch, refl, b);
        miss = λ k. cc;
        same_batches = refl;
        others = λ j n. get_or-set_ne s.repo.data_batches idx j (without f) [] n;
      },
    )
  ]
]
