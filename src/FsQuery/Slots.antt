-- ===== src/FsQuery/Slots.antt =====
-- The three slots of firmware/src/comm/xfer/fs_query.c.
use vayu.Common.{ℕ, ◌≡◌, refl, Bool, true, List, inl, inr, Bool-cases, ◌==◌, if◌then◌else◌}
use vayu.FsQuery.{Query, on_list, on_info, on_delete, delete_verdict, deferred, res_busy, res_ok}

-- A request that comes while one of its kind is in progress changes no slot: with the number of that
-- one it is taken for a repeat and deferred, with another it is answered BUSY. For a delete this holds
-- when the policy allows the path.
pub one_request_at_a_time :
    (recording : Bool) (req_seq sys comp : ℕ) (path : List ℕ) (start : ℕ) (q : Query)
    → q.list.active ≡ true
    → q.info.active ≡ true
    → q.delete.active ≡ true
    → delete_verdict recording path ≡ res_ok
    → (on_list req_seq sys comp path start q
        ≡ (if q.list.req_seq == req_seq then deferred else res_busy, q))
      × (on_info req_seq sys comp path q
          ≡ (if q.info.req_seq == req_seq then deferred else res_busy, q))
      × (on_delete recording req_seq sys comp path q
          ≡ (if q.delete.req_seq == req_seq then deferred else res_busy, q))
unfolding on_list on_info on_delete
one_request_at_a_time recording req_seq sys comp path start q l i d v = (
  simp (on_list, l)
      (elim (Bool-cases (q.list.req_seq == req_seq)) [ inl h ↦ simp h refl | inr h ↦ simp h refl ]),
  simp (on_info, i)
      (elim (Bool-cases (q.info.req_seq == req_seq)) [ inl h ↦ simp h refl | inr h ↦ simp h refl ]),
  simp (on_delete, v, d)
      (elim (Bool-cases (q.delete.req_seq == req_seq)) [
        | inl h ↦ simp h refl
        | inr h ↦ simp h refl
      ]),
)
