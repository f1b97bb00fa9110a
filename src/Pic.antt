-- ===== src/Pic.antt =====
-- The programmable interrupt controllers: kernel/core/pic.c. The ports are an interface, since in8 and
-- out8_wait are assembly; a byte is a number below 256.
pub mod Masks
use sdx.Prelude.{
  ℕ, zero, suc, Bool, true, false, List, [], ltb, ◌+◌, ◌-◌, ◌*◌, ◌/◌, ◌%◌, ◌∷◌, if◌then◌else◌,
}
use sdx.Util.Bits.{bit_on, bit_off}

-- The ports, and the interrupt manager's list of handlers.
pub record Io : Type 1 where
  pub State : Type 0
  pub in8 : (port : ℕ) → State → ℕ
  pub out8_wait : (port value : ℕ) → State → Bool × State
  pub add_handler : (vector : ℕ) → State → State

abbrev pub master_comm : ℕ
master_comm = 0x20

abbrev pub master_data : ℕ
master_data = 0x21

abbrev pub slave_comm : ℕ
slave_comm = 0xA0

abbrev pub slave_data : ℕ
slave_data = 0xA1

-- PIC_IRQ_MAX, PIC_IRQ_TOTAL and PIC_VECTOR_OFFSET.
abbrev pub irq_max : ℕ
irq_max = 7

abbrev pub irq_total : ℕ
irq_total = (2 - 1) * (irq_max + 1) + ((irq_max + 1) - (2 - 1))

abbrev pub vector_offset : ℕ
vector_offset = 32

unfoldable pub data_port : ℕ → ℕ
data_port i = if ltb irq_max i then slave_data else master_data

module _ (io : Io) where
  open io use {State, in8, out8_wait, add_handler}

  unfoldable pub pic_mask : (i : ℕ) → State → Bool × State
  pic_mask i s =
      if ltb irq_total i
      then (false, s)
      else out8_wait (data_port i) (bit_on (in8 (data_port i) s) i % 256) s

  unfoldable pub pic_unmask : (i : ℕ) → State → Bool × State
  pic_unmask i s =
      if ltb irq_total i
      then (false, s)
      else out8_wait (data_port i) (bit_off (in8 (data_port i) s) i % 256) s

  unfoldable pub pic_eoi : (i : ℕ) → State → Bool × State
  pic_eoi i s = if ltb irq_max i then out8_wait slave_comm 0x20 s else out8_wait master_comm 0x20 s

  -- The writes of a list in order, up to the first that fails.
  unfoldable pub out8_each : List (ℕ × ℕ) → State → Bool × State
  out8_each [] s = (true, s)
  out8_each ((port, value) ∷ rest) s =
      let (done, s') = out8_wait port value s in if done then out8_each rest s' else (false, s')

  -- `__pic_out8_all`
  unfoldable pub out8_all : (comm : Bool) (value : ℕ) → State → Bool × State
  out8_all comm value = out8_each (
      ((if comm then master_comm else master_data), value)
      ∷ ((if comm then slave_comm else slave_data), value)
      ∷ [])

  unfoldable pub pic_disable : State → Bool × State
  pic_disable s = out8_all false 0xff s

  unfoldable pub pic_enable : State → Bool × State
  pic_enable s = out8_all false 0 s

  -- The loop that adds the default handler, for `count` interrupts from `i` on.
  unfoldable pub add_handlers : (count i : ℕ) → State → State
  add_handlers zero i s = s
  add_handlers (suc count) i s = add_handlers count (i + 1) (add_handler (i + vector_offset) s)

  -- The four initialization command words, ICW1 to ICW4.
  abbrev pub command_words : List (ℕ × ℕ)
  command_words =
      (master_comm, 17)
      ∷ (slave_comm, 17)
      ∷ (master_data, vector_offset / 8 * 8)
      ∷ (slave_data, (vector_offset / 8 + (irq_max + 1) / 8) * 8)
      ∷ (master_data, 4)
      ∷ (slave_data, 2)
      ∷ (master_data, 1)
      ∷ (slave_data, 1)
      ∷ []

  unfoldable pub pic_init : State → Bool × State
  pic_init s =
      let (done, s') = out8_each command_words s in
      if done then (true, add_handlers irq_total 0 s') else (false, s')
