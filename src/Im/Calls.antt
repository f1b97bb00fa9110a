-- ===== src/Im/Calls.antt =====
-- Which handlers kernel/core/im/im.c calls for an interrupt, in which order.
use sdx.Prelude.{
  ℕ, refl, inl, inr, Bool, false, List, [], map, arith, eq_refl, Bool-cases, ◌≡◌, ◌≢◌, ◌&&◌, ◌∷◌,
  ◌++◌, ◌==◌,
}
use sdx.Im.{
  Prio, prio_first, prio_second, prio_last, same_prio, Handler, Handlers, has_entry, im_add_handler,
  set_enabled, im_disable_handler, calls_at, im_handle,
}

-- What is called after adding a handler: it comes after the handlers of the earlier priorities, and
-- before those of its own and of the later ones.
abbrev pub with_call : Prio → (vector func : ℕ) → List Handler → List ℕ
with_call prio_first vector func hs =
    func
    ∷ (calls_at prio_first vector hs
        ++ (calls_at prio_second vector hs ++ calls_at prio_last vector hs))
with_call prio_second vector func hs =
    calls_at prio_first vector hs
    ++ (func ∷ (calls_at prio_second vector hs ++ calls_at prio_last vector hs))
with_call prio_last vector func hs =
    calls_at prio_first vector hs
    ++ (calls_at prio_second vector hs ++ (func ∷ calls_at prio_last vector hs))

-- A handler that is not in the list yet is called for its interrupt in the place of its priority, the
-- newest one first; the calls for the other interrupts are as before.
pub im_add_handler-im_handle :
    (garbage : Bool) (vector : ℕ) (prio : Prio) (func : ℕ) (s : Handlers)
    → func ≢ 0
    → has_entry vector func s.entries ≡ false
    → (im_handle vector (im_add_handler garbage vector prio func s)
        ≡ with_call prio vector func s.entries)
      × ((other : ℕ)
          → other ≢ vector
          → im_handle other (im_add_handler garbage vector prio func s) ≡ im_handle other s)
unfolding im_handle im_add_handler calls_at same_prio
im_add_handler-im_handle garbage vector prio_first func s ne new =
    let z : (func == 0) ≡ false = ground (arith, ne) in
    (
      rw (z, new, eq_refl vector) refl,
      λ other d. let o : (vector == other) ≡ false = ground (arith, d) in rw (z, new, o) refl,
    )
im_add_handler-im_handle garbage vector prio_second func s ne new =
    let z : (func == 0) ≡ false = ground (arith, ne) in
    (
      rw (z, new, eq_refl vector) refl,
      λ other d. let o : (vector == other) ≡ false = ground (arith, d) in rw (z, new, o) refl,
    )
im_add_handler-im_handle garbage vector prio_last func s ne new =
    let z : (func == 0) ≡ false = ground (arith, ne) in
    (
      rw (z, new, eq_refl vector) refl,
      λ other d. let o : (vector == other) ≡ false = ground (arith, d) in rw (z, new, o) refl,
    )

calls_at-set_enabled :
    (prio : Prio) (v vector func : ℕ) (hs : List Handler)
    → calls_at prio v (map (set_enabled false vector func) hs) ≡ calls_at prio v hs
unfolding calls_at set_enabled
calls_at-set_enabled prio v vector func [] = refl
calls_at-set_enabled prio v vector func (h ∷ hs) =
    elim (Bool-cases (h.vector == vector && h.func == func)) [
      | inl e ↦ rw (e, calls_at-set_enabled prio v vector func hs) refl
      | inr e ↦ rw (e, calls_at-set_enabled prio v vector func hs) refl
    ]

-- Disabling a handler changes no call: im_handle does not look at the flag.
pub im_handle-im_disable_handler :
    (v vector func : ℕ) (s : Handlers)
    → im_handle v (im_disable_handler vector func s) ≡ im_handle v s
unfolding im_handle im_disable_handler
im_handle-im_disable_handler v vector func s =
    rw
      (
        calls_at-set_enabled prio_first v vector func s.entries,
        calls_at-set_enabled prio_second v vector func s.entries,
        calls_at-set_enabled prio_last v vector func s.entries,
      )
      refl
