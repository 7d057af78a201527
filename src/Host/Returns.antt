-- ===== src/Host/Returns.antt =====
-- The return of blocks: `return_allocated_chunks`, run by the destructor of an allocation.
use mathlib.Core.Path.{subst}
use cu_cascade.Base.{
  ℕ, ◌-◌, ◌*◌, ◌/◌, ◌%◌, ◌^◌, ◌≤◌, ◌<◌, ◌≡◌, refl, sym, ap, ◌∙◌, Option, none, some, List, [], ◌∷◌,
  arith, ◌==◌, Bool-cases, inl, inr, ok, length,
}
use cu_cascade.Base.Words.{sub64_exact, word_size}
use cu_cascade.Base.Int.{ℤ, pos_part, to_i64, sub_i64, add_i64}
use cu_cascade.Atomics.{sub, update_peak}
use cu_cascade.Host.{
  Slot, HostResource, find_slot, put_slot, Taking, Allocation, uuid_of, allocate_blocks,
  reclaimed_share, conclude, return_bytes, return_allocated_chunks, pointed_slot,
  destroy_allocation, get_free_blocks, get_total_blocks,
}
use cu_cascade.Host.Amounts.{allocate_share, return_share, uncounted}
use cu_cascade.Host.Charges.{find-put, find-uuid, Inv, slot_small, put-Inv}
use cu_cascade.Host.Collecting.{Took, all_taken, threw, ran_out, take-Took}
use cu_cascade.Host.Blocks.{
  allocate_cases, charged_resource, IsLive, Charged, Charged-same, charge_slot-fields, put-put,
}

-- What can be returned: of a live reservation what is allocated from it, else what is loose.
abbrev pub returnable : ℕ → Option Slot → ℕ
returnable loose none = loose
returnable loose (some s) = pos_part s.allocated_bytes

-- The loose bytes after a return.
abbrev pub loose_after : ℕ → Option Slot → ℕ → ℕ
loose_after loose none n = loose - n
loose_after loose (some s) n = loose

return_bytes-Inv :
    (loose n : ℕ) (r : HostResource) (slot : Option Slot)
    → Inv loose r
    → IsLive r slot
    → n ≤ returnable loose slot
    → Inv (loose_after loose slot n) (return_bytes r slot n)
unfolding return_bytes sub
return_bytes-Inv loose n r none v f w =
    let e =
      sub64_exact r.allocated_bytes n (omega (arith, v.accounted))
        (omega (arith, v.limited, v.small)) in
    record {
      accounted = omega (arith, e, v.accounted);
      limited = omega (arith, e, v.limited);
      small = v.small;
      counted = v.counted;
    }
return_bytes-Inv loose n r (some s) v f w =
    let (k, below, small) = slot_small loose r s.uuid s v f in
    let (post, share) = return_share s.size s.allocated_bytes n k.0 k.1 w (omega arith) in
    let part = reclaimed_share s.allocated_bytes (sub_i64 s.allocated_bytes (to_i64 n)) s.size n in
    let e = sub64_exact r.allocated_bytes part (omega arith) (omega arith) in
    put-Inv loose loose r _ s (record s { allocated_bytes = sub_i64 s.allocated_bytes (to_i64 n) })
      v f (k.0, rw post refl) (omega (arith, ap pos_part post, share, e))
      (omega (arith, e, v.limited)) refl refl refl

pub returnable_small :
    (loose : ℕ) (r : HostResource) (slot : Option Slot)
    → Inv loose r
    → IsLive r slot
    → returnable loose slot < 2 ^ 62
returnable_small loose r none v f = omega (arith, v.accounted, v.limited, v.small)
returnable_small loose r (some s) v f =
    let (k, below, small) = slot_small loose r s.uuid s v f in omega arith

pub pointed-IsLive : (r : HostResource) (arena : Option ℕ) → IsLive r (pointed_slot r arena)
pointed-IsLive r none = tt
pointed-IsLive r (some id) = go (find_slot r.active_reservations id) refl
  where
    go : (o : Option Slot) → find_slot r.active_reservations id ≡ o → IsLive r o
    go none e = tt
    go (some s) e =
        ap (find_slot r.active_reservations) (find-uuid r.active_reservations id s e) ∙ e

-- The return of blocks keeps the accounts, if no more returns than is allocated from the reservation,
-- and with none, or one that is gone, no more than is loose.
pub return-Inv :
    (loose : ℕ) (r : HostResource) (chunks : List ℕ) (arena : Option ℕ)
    → Inv loose r
    → length chunks * r.block_size ≤ returnable loose (pointed_slot r arena)
    → Inv
        (loose_after loose (pointed_slot r arena) (length chunks * r.block_size))
        (return_allocated_chunks r chunks arena)
unfolding return_allocated_chunks
return-Inv loose r chunks arena v w =
    let slot = pointed_slot r arena in
    let live = pointed-IsLive r arena in
    let n = length chunks * r.block_size in
    let same : n % word_size ≡ n = omega (arith, returnable_small loose r slot v live) in
    rw same (return_bytes-Inv loose n r slot v live w)

put-same : (ss : List Slot) (s : Slot) → find_slot ss s.uuid ≡ some s → put_slot ss s ≡ ss
put-same [] s e = refl
put-same (x ∷ ss) s e = elim (Bool-cases (x.uuid == s.uuid)) [
  | inl h ↦ ground arith
  | inr h ↦ ground (arith, put-same ss s)
]

-- The resource after the destruction of an allocation, up to the blocks and the peak, is the one before.
pub record Undone (r before after : HostResource) : Type 0 where
  pub bytes_back : after.allocated_bytes ≡ r.allocated_bytes
  pub slots_back : after.active_reservations ≡ r.active_reservations
  pub blocks_kept : get_free_blocks after ≡ get_free_blocks before
  pub total_kept : get_total_blocks after ≡ get_total_blocks before

undo_none :
    (loose total : ℕ) (r q : HostResource)
    → Inv loose r
    → total < 2 ^ 62
    → Charged r none total q
    → Undone r q (return_bytes q none total)
unfolding return_bytes sub get_free_blocks get_total_blocks
undo_none loose total r q v w c = record {
  bytes_back =
      sub64_exact q.allocated_bytes total (omega (arith, c.bytes)) (omega (arith, c.fits, v.small))
      ∙ omega (arith, c.bytes);
  slots_back = c.slots;
  blocks_kept = refl;
  total_kept = refl;
}

undo_some :
    (loose total : ℕ) (r q : HostResource) (s : Slot)
    → Inv loose r
    → find_slot r.active_reservations s.uuid ≡ some s
    → total < 2 ^ 62
    → Charged r (some s) total q
    → Undone r q (
        return_bytes q
          (some (record s { allocated_bytes = add_i64 s.allocated_bytes (to_i64 total) }))
          total)
unfolding return_bytes sub get_free_blocks get_total_blocks
undo_some loose total r q s v f w c =
    let (k, below, small) = slot_small loose r s.uuid s v f in
    let up = add_i64 s.allocated_bytes (to_i64 total) in
    let (post, share) = allocate_share s.size s.allocated_bytes total k.0 k.1 (omega arith) in
    let back = uncounted s.allocated_bytes total k.1 (omega arith) in
    let (_, reclaimed) =
      return_share s.size up total k.0 (rw post refl) (omega (arith, ap pos_part post))
        (omega (arith, ap pos_part post)) in
    let part = reclaimed_share up (sub_i64 up (to_i64 total)) s.size total in
    record {
      bytes_back =
          sub64_exact q.allocated_bytes part
            (omega (arith, c.bytes, ap pos_part post, share, reclaimed))
            (omega (arith, c.fits, v.small))
          ∙ omega (arith, c.bytes, ap pos_part post, share, reclaimed);
      slots_back =
          ap (λ (z : ℤ). put_slot q.active_reservations (record s { allocated_bytes = z })) back
          ∙ ap (λ ss. put_slot ss s) c.slots
          ∙ put-put r.active_reservations (record s { allocated_bytes = up }) s refl
          ∙ put-same r.active_reservations s f;
      blocks_kept = refl;
      total_kept = refl;
    }

undo :
    (loose total : ℕ) (r q : HostResource) (slot : Option Slot) (chunks : List ℕ)
    → Inv loose r
    → IsLive r slot
    → total < 2 ^ 62
    → Charged r slot total q
    → length chunks * q.block_size ≡ total
    → Undone r q (return_allocated_chunks q chunks (uuid_of slot))
unfolding return_allocated_chunks
undo loose total r q none chunks v f w c e =
    let same : (length chunks * q.block_size) % word_size ≡ total = omega (arith, e) in
    rw same (undo_none loose total r q v w c)
undo loose total r q (some s) chunks v f w c e =
    let same : (length chunks * q.block_size) % word_size ≡ total = omega (arith, e) in
    let found : find_slot q.active_reservations s.uuid
        ≡ some (record s { allocated_bytes = add_i64 s.allocated_bytes (to_i64 total) }) =
      ap (λ ss. find_slot ss s.uuid) c.slots ∙ find-put r.active_reservations s _ f in
    rw (same, found) (undo_some loose total r q s v f w c)

conclude-destroy :
    (loose total charged post n : ℕ) (r r1 : HostResource) (slot : Option Slot)
    (t : HostResource × Taking) (a : Allocation)
    → Inv loose r
    → IsLive r slot
    → n * r1.block_size ≡ total
    → 0 < total
    → total < 2 ^ 62
    → Charged r slot total r1
    → Took n r1 [] t
    → (conclude slot total charged post t).1 ≡ ok (some a)
    → let before = (conclude slot total charged post t).0 in
      Undone r before (destroy_allocation before a)
unfolding destroy_allocation
conclude-destroy loose total charged post n r r1 slot _ a v f m p w c (all_taken r' (b ∷ bs) s k)
      e =
    let q : HostResource = record r' {
      peak_allocated_bytes = update_peak r'.peak_allocated_bytes [] post;
    } in
    let taken_all : length (b ∷ bs) ≡ n = omega arith in
    let given : record { blocks = b ∷ bs; reserved_memory = uuid_of slot } ≡ a = cc in
    subst (λ (x : Allocation). Undone r q (destroy_allocation q x)) given
      (undo loose total r q slot (b ∷ bs) v f w
        (Charged-same r r1 q slot total c s.limit s.capacity s.bytes s.slots)
        (rw (s.size, taken_all) m))
conclude-destroy loose total charged post n r r1 slot _ a v f m p w c (all_taken r' [] s k) e =
    let none_taken : n ≡ 0 = omega arith in
    absurd (omega (arith, ap (λ x. x * r1.block_size) none_taken))
conclude-destroy loose total charged post n r r1 slot _ a v f m p w c (threw r' s) e = cc
conclude-destroy loose total charged post n r r1 slot _ a v f m p w c (ran_out r' s z) e = cc

-- An allocation of a positive number of blocks below 2^62 bytes, from a live reservation or from none,
-- that is destroyed at once: the allocated bytes and all reservations are again what they were. The
-- blocks are not: as many are free, and as many in all, as before the destruction, so that those of the
-- allocation are free for nobody any more.
pub allocate-destroy :
    (loose total : ℕ) (r : HostResource) (slot : Option Slot) (upstream : List (Option ℕ))
    (a : Allocation)
    → Inv loose r
    → IsLive r slot
    → (total / r.block_size) * r.block_size ≡ total
    → 0 < total
    → total < 2 ^ 62
    → (allocate_blocks r slot total upstream).1 ≡ ok (some a)
    → let before = (allocate_blocks r slot total upstream).0 in
      Undone r before (destroy_allocation before a)
allocate-destroy loose total r slot upstream a v f m p w e =
    elim (allocate_cases loose total r slot upstream v) [
      | inl o ↦ let bad : ok none ≡ ok (some a) = sym (ap (λ x. x.1) o) ∙ e in cc
      | inr (c, o) ↦ rw o (
          conclude-destroy loose total _ _ (total / r.block_size) r (charged_resource r slot total)
            slot _ a v f (rw (charge_slot-fields r slot total).4 m) p w c
            (take-Took (total / r.block_size) (charged_resource r slot total) [] upstream)
            (sym (ap (λ x. x.1) o) ∙ e))
    ]
