-- ===== src/Result/Storage/Laws.antt =====
-- The assignments of `result_storage`: what they store, and where they have no defined result.
use ice_coroutines.Base.{
  ℕ, ◌==◌, Bool, true, false, none, some, ◌≡◌, ◌≢◌, arith, ◌⊎◌, inl, inr, fun_ext, ap,
}
use ice_coroutines.Result.Storage.{
  Member, raw, Storage, Store, update, read_member, destroy, copy_construct, copy_assign, leave,
  move_assign, Agrees, IsLive,
}

differs : {p q : ℕ} → p ≢ q → (p == q) ≡ false
differs h = ground arith

itself : (p : ℕ) → (p == p) ≡ true
itself p = ground arith

module _ {A : Type 0} where
  destroy-cases : (b : Bool) (m : Member A) → (destroy b m ≡ none) ⊎ (destroy b m ≡ some raw)
  unfolding destroy
  destroy-cases b m = ground arith

  read_raw : (b : Bool) → read_member {A = A} b raw ≡ none
  unfolding read_member
  read_raw b = ground arith

  destroy_live : (b : Bool) (m : Member A) → Agrees b m → destroy b m ≡ some raw
  unfolding destroy
  destroy_live b m h = ground arith

  read_live : (b : Bool) (m : Member A) → Agrees b m → read_member b m ≡ some m
  unfolding read_member
  read_live b m h = ground arith

  update_ne : (st : Store A) {p q : ℕ} (s : Storage A) → p ≢ q → update st p s q ≡ st q
  update_ne st s h = ground arith

  update_self : (st : Store A) (p : ℕ) (s : Storage A) → update st p s p ≡ s
  update_self st p s = ground arith

  pub copy_construct_lem : (s : Storage A) → IsLive s → copy_construct s ≡ some s
  unfolding copy_construct
  copy_construct_lem s h = rw (read_live s.has_value s.member h)

  copy_assign_lem :
      (this other : ℕ) (st : Store A)
      → this ≢ other
      → IsLive (st this)
      → IsLive (st other)
      → copy_assign this other st ≡ some (update st this (st other))
  unfolding copy_assign
  copy_assign_lem this other st ne live there = rw (destroy_live _ _ live) (
      rw (differs ne)
        (rw (itself this) (rw (read_live _ _ there) (ap some (fun_ext λ q. ground arith)))))

  move_assign_lem :
      (moved : A → A) (this other : ℕ) (st : Store A)
      → this ≢ other
      → IsLive (st this)
      → IsLive (st other)
      → move_assign moved this other st
        ≡ some (
            update
              (update st other (record (st other) { member = leave moved (st other).member }))
              this
              (st other))
  unfolding move_assign
  move_assign_lem moved this other st ne live there = rw (destroy_live _ _ live) (
      rw (differs ne)
        (rw (itself this) (rw (read_live _ _ there) (ap some (fun_ext λ q. ground arith)))))

  -- Copying or moving one live result over a different one that is live stores an equal result, which it constructs where the
  -- destructor of what was there has left no member: with one there the assignment would have no result. A
  -- move leaves the source with its flag and a moved-from value; no other object changes.
  pub assign_lem :
      (moved : A → A) (this other : ℕ) (st : Store A)
      → this ≢ other
      → IsLive (st this)
      → IsLive (st other)
      → (copy_assign this other st ≡ some (update st this (st other)))
        × (move_assign moved this other st
            ≡ some (
                update
                  (update st other (record (st other) { member = leave moved (st other).member }))
                  this
                  (st other)))
  assign_lem moved this other st ne live there = (
    copy_assign_lem this other st ne live there,
    move_assign_lem moved this other st ne live there,
  )

  -- Assigning a result to itself reads the member that it has just destroyed: whatever the result
  -- holds, neither assignment has a defined outcome.
  pub assign_self :
      (moved : A → A) (p : ℕ) (st : Store A)
      → (copy_assign p p st ≡ none) × (move_assign moved p p st ≡ none)
  unfolding copy_assign move_assign
  assign_self moved p st = elim (destroy-cases (st p).has_value (st p).member) [
    | inl bad ↦ (rw bad, rw bad)
    | inr dead ↦ (rw dead (rw (itself p) (rw read_raw)), rw dead (rw (itself p) (rw read_raw)))
  ]
