-- ===== src/Converter/Registry.antt =====
-- The registry of converters.
use mathlib.Core.Path.{subst}
use cu_cascade.Base.{
  ◌≢◌, ◌≡◌, refl, sym, ◌∙◌, true, false, Option, none, some, List, [], ◌∷◌, if◌then◌else◌, arith,
  Bool-cases, Option-cases, inl, inr, runtime_error, Result, ok, err,
}
use cu_cascade.Converter.{
  ConverterKey, key_eq, gpu_table, host_table, find_converter, erase_converter, register_converter,
  has_converter, convert, unregister_converter, clear, register_all, register_builtin_converters,
}

key_eq_refl : (k : ConverterKey) → key_eq k k ≡ true
key_eq_refl k = ground arith

key_eq-sym : (a b : ConverterKey) → key_eq a b ≡ key_eq b a
key_eq-sym a b = ground arith

key_eq_path : (a b : ConverterKey) → key_eq a b ≡ true → a ≡ b
key_eq_path a b h =
    let p : a.source_type ≡ b.source_type = ground arith in
    let q : a.target_type ≡ b.target_type = ground arith in
    λ i. record { source_type = p i; target_type = q i }

other_key : (a b : ConverterKey) → a ≢ b → key_eq a b ≡ false
other_key a b n = elim (Bool-cases (key_eq a b)) [
  | inl h ↦ absurd (n (key_eq_path a b h))
  | inr h ↦ h
]

module _ {C : Type 0} where
  -- Each key once: what a registry of unique keys is.
  abbrev pub IsUnique : List (ConverterKey × C) → Type 0
  IsUnique [] = Unit
  IsUnique ((k, c) ∷ cs) = (find_converter cs k ≡ none) × IsUnique cs

  registered :
      (cs cs' : List (ConverterKey × C)) (key : ConverterKey) (c : C) (o : Option C)
      → elim o as (λ x. Result (List (ConverterKey × C))) [
        | some old ↦ err runtime_error
        | none ↦ ok ((key, c) ∷ cs)
      ]
        ≡ ok cs'
      → (o ≡ none) × ((key, c) ∷ cs ≡ cs')
  registered cs cs' key c none e = (refl, cc)
  registered cs cs' key c (some x) e = cc

  -- The registry is a map from pairs of types. A registration of a free pair succeeds: that pair, and no pair that
  -- differs in either type, has the new converter, which a conversion then calls; to unregister the pair
  -- gives back the registry as it was. A registration of a pair that has a converter throws.
  pub register-find :
      {A : Type 0} (cs : List (ConverterKey × C)) (key : ConverterKey) (c : C) (call : C → Result A)
      → (has_converter cs key ≡ false
          → (cs' : List (ConverterKey × C)) × (register_converter cs key c ≡ ok cs')
            × (find_converter cs' key ≡ some c)
            × ((k : ConverterKey) → key ≢ k → find_converter cs' k ≡ find_converter cs k)
            × (convert cs' key call ≡ call c)
            × (unregister_converter cs' key ≡ (cs, true)))
        × (has_converter cs key ≡ true → register_converter cs key c ≡ err runtime_error)
  unfolding register_converter has_converter convert unregister_converter
  register-find cs key c call = elim (Option-cases (find_converter cs key)) [
    | inl free ↦
        let same = key_eq_refl key in
        (
          λ h. (
            (key, c) ∷ cs,
            rw (free, register_converter) refl,
            rw same refl,
            λ k n. rw (other_key key k n) refl,
            rw (same, convert) refl,
            rw (same, unregister_converter, has_converter) refl,
          ),
          λ h. absurd (taken none free h),
        )
    | inr (old, there) ↦
        (λ h. absurd (open_key old there h), λ h. rw (there, register_converter) refl)
  ]
    where
      taken : (o : Option C) → find_converter cs key ≡ none → has_converter cs key ≡ true → ⊥
      taken o free h = cc (rw (free, has_converter) at h)

      open_key : (old : C) → find_converter cs key ≡ some old → has_converter cs key ≡ false → ⊥
      open_key old there h = cc (rw (there, has_converter) at h)

  erase-find :
      (cs : List (ConverterKey × C)) (key k : ConverterKey)
      → IsUnique cs
      → find_converter (erase_converter cs key) k
        ≡ (if key_eq key k then none else find_converter cs k)
  erase-find [] key k u = elim (Bool-cases (key_eq key k)) [ inl h ↦ rw h refl | inr h ↦ rw h refl ]
  erase-find ((j, c) ∷ cs) key k u = elim (Bool-cases (key_eq j key)) [
    | inl h ↦
        let p = key_eq_path j key h in
        elim (Bool-cases (key_eq key k)) [
          | inl q ↦
              rw (h, q) (subst (λ x. find_converter cs x ≡ none) (p ∙ key_eq_path key k q) u.0)
          | inr q ↦ rw (h, q, subst (λ x. key_eq x k ≡ false) (sym p) q) refl
        ]
    | inr h ↦ elim (Bool-cases (key_eq j k)) [
      | inl q ↦
          let other : key_eq key k ≡ false =
            key_eq-sym key k ∙ subst (λ x. key_eq x key ≡ false) (key_eq_path j k q) h in
          rw (h, q, other) refl
      | inr q ↦ rw (h, q) (erase-find cs key k u.1)
    ]
  ]

  erase-IsUnique :
      (cs : List (ConverterKey × C)) (key : ConverterKey)
      → IsUnique cs
      → IsUnique (erase_converter cs key)
  erase-IsUnique [] key u = tt
  erase-IsUnique ((j, c) ∷ cs) key u = elim (Bool-cases (key_eq j key)) [
    | inl h ↦ rw h u.1
    | inr h ↦ rw h (
      erase-find cs key j u.1
          ∙ rw (u.0) (elim (Bool-cases (key_eq key j)) [ inl q ↦ rw q refl | inr q ↦ rw q refl ]),
      erase-IsUnique cs key u.1,
    )
  ]

  -- `unregister_converter` tells whether the key was registered, frees it, and keeps the other keys; a conversion with
  -- the key then throws, and a registration of it succeeds again.
  pub unregister-find :
      {A : Type 0} (cs : List (ConverterKey × C)) (key : ConverterKey) (c : C) (call : C → Result A)
      → IsUnique cs
      → let u = unregister_converter cs key in
        (u.1 ≡ has_converter cs key)
        × IsUnique u.0
        × ((k : ConverterKey)
            → find_converter u.0 k ≡ (if key_eq key k then none else find_converter cs k))
        × (convert u.0 key call ≡ err runtime_error)
        × (register_converter u.0 key c ≡ ok ((key, c) ∷ u.0))
  unfolding unregister_converter convert register_converter
  unregister-find cs key c call u =
      let gone : find_converter (erase_converter cs key) key ≡ none =
        erase-find cs key key u ∙ rw (key_eq_refl key) refl in
      (
        refl,
        erase-IsUnique cs key u,
        λ k. erase-find cs key k u,
        rw (gone, convert) refl,
        rw (gone, register_converter) refl,
      )

  clash : {x : C} → none ≡ some x → ⊥
  clash e = cc

  -- What a list of registrations keeps, and what it leaves.
  find_kept :
      (cs : List (ConverterKey × C)) (key k : ConverterKey) (c x : C)
      → find_converter cs key ≡ none
      → find_converter cs k ≡ some x
      → find_converter ((key, c) ∷ cs) k ≡ some x
  find_kept cs key k c x h e = elim (Bool-cases (key_eq key k)) [
    | inl q ↦
        absurd (clash (sym (subst (λ y. find_converter cs y ≡ none) (key_eq_path key k q) h) ∙ e))
    | inr q ↦ rw q e
  ]

  register_all_keeps :
      (cs new : List (ConverterKey × C)) (k : ConverterKey) (x : C)
      → find_converter cs k ≡ some x
      → find_converter (register_all cs new).0 k ≡ some x
  unfolding register_all register_converter
  register_all_keeps cs [] k x e = e
  register_all_keeps cs ((key, c) ∷ new) k x e = elim (Option-cases (find_converter cs key)) [
    | inl h ↦
        rw (h, register_all, register_converter)
          (register_all_keeps ((key, c) ∷ cs) new k x (find_kept cs key k c x h e))
    | inr (y, h) ↦ rw (h, register_all, register_converter) e
  ]

  first_is_found :
      (cs new : List (ConverterKey × C)) (key : ConverterKey) (c : C)
      → (x : C) × (find_converter (register_all cs ((key, c) ∷ new)).0 key ≡ some x)
  unfolding register_all register_converter
  first_is_found cs new key c = elim (Option-cases (find_converter cs key)) [
    | inl h ↦ (
      c,
      rw (h, register_all, register_converter)
          (register_all_keeps ((key, c) ∷ cs) new key c (rw (key_eq_refl key) refl)),
    )
    | inr (y, h) ↦ (y, rw (h, register_all, register_converter) h)
  ]

  again_throws :
      (cs new : List (ConverterKey × C)) (key : ConverterKey) (c x : C)
      → find_converter cs key ≡ some x
      → register_all cs ((key, c) ∷ new) ≡ (cs, err runtime_error)
  unfolding register_all register_converter
  again_throws cs new key c x e = rw (e, register_all, register_converter) refl

  abbrev later_builtins : C → C → C → List (ConverterKey × C)
  later_builtins gpu_to_host host_to_gpu host_to_host =
      (record { source_type = gpu_table; target_type = host_table }, gpu_to_host)
      ∷ (record { source_type = host_table; target_type = gpu_table }, host_to_gpu)
      ∷ (record { source_type = host_table; target_type = host_table }, host_to_host)
      ∷ []

  -- `register_builtin_converters` loses no converter that was registered, whether it throws or not. A second call on what
  -- it leaves throws and changes nothing.
  pub builtin_twice :
      (cs : List (ConverterKey × C)) (a b c d a' b' c' d' : C)
      → let first = (register_builtin_converters cs a b c d).0 in
        ((k : ConverterKey) (x : C)
          → find_converter cs k ≡ some x
          → find_converter first k ≡ some x)
        × (register_builtin_converters first a' b' c' d' ≡ (first, err runtime_error))
  unfolding register_builtin_converters
  builtin_twice cs a b c d a' b' c' d' =
      let (x, e) =
        first_is_found cs (later_builtins b c d)
          (record { source_type = gpu_table; target_type = gpu_table }) a in
      (
        λ k x' h.
            register_all_keeps cs
              ((record { source_type = gpu_table; target_type = gpu_table }, a)
                ∷ later_builtins b c d)
              k x' h,
        again_throws _ (later_builtins b' c' d') _ a' x e,
      )

  -- On a registry without converters it succeeds, and then converts in each of the four directions with the converter given
  -- for it.
  pub builtin_directions :
      {A : Type 0} (cs : List (ConverterKey × C)) (a b c d : C) (call : C → Result A)
      → let o = register_builtin_converters (clear cs) a b c d in
        (o.1 ≡ ok tt)
        × (convert o.0 (record { source_type = gpu_table; target_type = gpu_table }) call ≡ call a)
        × (convert o.0 (record { source_type = gpu_table; target_type = host_table }) call ≡ call b)
        × (convert o.0 (record { source_type = host_table; target_type = gpu_table }) call ≡ call c)
        × (convert o.0 (record { source_type = host_table; target_type = host_table }) call
            ≡ call d)
  unfolding register_builtin_converters register_all register_converter convert clear
  builtin_directions cs a b c d call = (refl, refl, refl, refl, refl)
