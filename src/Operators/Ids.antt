-- ===== src/Operators/Ids.antt =====
-- The ids that `get_next_data_batch_id` gives out.
use cu_cascade.Base.{ℕ, zero, suc, ◌+◌, ◌-◌, ◌%◌, ◌<◌, ◌≡◌, ◌≢◌, sym, ◌∙◌, arith}
use cu_cascade.Base.Words.{word_size, add64}
use cu_cascade.Operators.{DataRepositoryManager, get_next_data_batch_id}

-- After `n` calls.
abbrev pub after_calls : ℕ → DataRepositoryManager → DataRepositoryManager
after_calls zero m = m
after_calls (suc n) m = after_calls n (get_next_data_batch_id m).0

-- The result of the call after `n` others.
abbrev pub nth_id : ℕ → DataRepositoryManager → ℕ
nth_id n m = (get_next_data_batch_id (after_calls n m)).1

nth_id-mod :
    (n : ℕ) (m : DataRepositoryManager)
    → m.next_data_batch_id < word_size
    → nth_id n m ≡ (m.next_data_batch_id + n) % word_size
unfolding get_next_data_batch_id add64
nth_id-mod zero m h = omega (arith, h)
nth_id-mod (suc n) m h = nth_id-mod n (get_next_data_batch_id m).0 (omega arith) ∙ omega (arith, h)

-- Two calls give different ids, if fewer than 2^64 calls lie from the one to the other.
pub nth_id-distinct :
    (i j : ℕ) (m : DataRepositoryManager)
    → m.next_data_batch_id < word_size
    → i < j
    → j - i < word_size
    → nth_id i m ≢ nth_id j m
nth_id-distinct i j m h l w e =
    let same = sym (nth_id-mod i m h) ∙ e ∙ nth_id-mod j m h in omega (arith, same, h)
