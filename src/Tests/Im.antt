-- ===== src/Tests/Im.antt =====
-- kernel/core/im/im.c at a concrete list of handlers.
use sdx.Prelude.{ℕ, refl, true, false, [], arith, ◌≡◌, ◌≢◌, ◌∷◌}
use sdx.Im.{prio_first, prio_second, Handlers, has_entry, im_add_handler, im_handle}
use sdx.Im.Calls.{with_call, im_add_handler-im_handle}

-- The default handler of the timer interrupt.
abbrev one_handler : Handlers
one_handler = record {
  entries = record { func = 100; prio = prio_first; vector = 32; is_enabled = true } ∷ [];
  count = 1;
}

scheduler_new : has_entry 32 200 (one_handler.entries) ≡ false
unfolding has_entry
scheduler_new = refl

im_add_handler-im_handle_example :
    (im_handle 32 (im_add_handler false 32 prio_second 200 one_handler)
      ≡ with_call prio_second 32 200 (one_handler.entries))
    × ((other : ℕ)
        → other ≢ 32
        → im_handle other (im_add_handler false 32 prio_second 200 one_handler)
          ≡ im_handle other one_handler)
im_add_handler-im_handle_example =
    im_add_handler-im_handle false 32 prio_second 200 one_handler (omega arith) scheduler_new
