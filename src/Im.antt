-- ===== src/Im.antt =====
-- The interrupt manager: kernel/core/im/im.c. A function is its address, 0 is NULL.
pub mod Calls
use sdx.Prelude.{
  ℕ, Bool, true, false, List, [], map, ◌+◌, ◌*◌, ◌/◌, ◌%◌, ◌^◌, ◌&&◌, ◌||◌, ◌∷◌, ◌++◌, ◌==◌,
  if◌then◌else◌,
}

-- `struct im_desc`
pub record Desc : Type 0 where
  pub address_low : ℕ
  pub selector : ℕ
  pub ist : ℕ
  pub attr : ℕ
  pub address_mid : ℕ
  pub address_high : ℕ
  pub zero_bits : ℕ

-- `im_set_entry` of one descriptor; the fields of the attributes share no bit.
unfoldable pub im_set_entry : (code_selector dpl : ℕ) → Desc → Desc
im_set_entry code_selector dpl d = record d {
  selector = code_selector;
  attr = 128 + dpl % 4 * 32 + 14;
  ist = 0;
}

-- The descriptor that im_init makes of an entry, with the address of the wrapper for the interrupt `i`.
unfoldable pub im_desc : (code_selector wrapper_addr wrapper_size i : ℕ) → Desc → Desc
im_desc code_selector wrapper_addr wrapper_size i d =
    let addr = (wrapper_addr + wrapper_size * i) % 2 ^ 64 in
    im_set_entry code_selector 0 (record d {
      address_low = addr % 2 ^ 16;
      address_mid = addr / 2 ^ 16 % 2 ^ 16;
      address_high = addr / 2 ^ 32 % 2 ^ 32;
    })

-- `im_handler_prio_t`
pub data Prio : Type 0 where
  prio_first prio_second prio_last : Prio

unfoldable pub same_prio : Prio → Prio → Bool
same_prio prio_first prio_first = true
same_prio prio_second prio_second = true
same_prio prio_last prio_last = true
same_prio p q = false

-- `struct im_handler_entry`, without its links.
pub record Handler : Type 0 where
  pub func : ℕ
  pub prio : Prio
  pub vector : ℕ
  pub is_enabled : Bool

-- The list of handlers as a walk from its tail meets it, with the newest one first, and its count.
pub record Handlers : Type 0 where
  pub entries : List Handler
  pub count : ℕ

-- Is a handler in the list?
abbrev pub is_entry : (vector func : ℕ) → Handler → Bool
is_entry vector func h = h.vector == vector && h.func == func

unfoldable pub has_entry : (vector func : ℕ) → List Handler → Bool
has_entry vector func [] = false
has_entry vector func (h ∷ hs) = is_entry vector func h || has_entry vector func hs

-- `im_add_handler`, where heap_alloc finds memory; `garbage` is what its memory has in `is_enabled`.
unfoldable pub im_add_handler :
    (garbage : Bool) (vector : ℕ) (prio : Prio) (func : ℕ) → Handlers → Handlers
im_add_handler garbage vector prio func s =
    if func == 0 || has_entry vector func s.entries then s else record {
      entries =
          record { func = func; prio = prio; vector = vector; is_enabled = garbage } ∷ s.entries;
      count = (s.count + 1) % 2 ^ 64;
    }

-- `im_disable_handler` and `im_enable_handler`
unfoldable pub set_enabled : (enabled : Bool) (vector func : ℕ) → Handler → Handler
set_enabled enabled vector func h =
    if is_entry vector func h then record h { is_enabled = enabled } else h

unfoldable pub im_disable_handler : (vector func : ℕ) → Handlers → Handlers
im_disable_handler vector func s = record s {
  entries = map (set_enabled false vector func) s.entries;
}

unfoldable pub im_enable_handler : (vector func : ℕ) → Handlers → Handlers
im_enable_handler vector func s = record s {
  entries = map (set_enabled true vector func) s.entries;
}

-- The functions that im_handle calls in one round of its outer loop, and in all three.
unfoldable pub calls_at : Prio → (vector : ℕ) → List Handler → List ℕ
calls_at prio vector [] = []
calls_at prio vector (h ∷ hs) =
    if same_prio h.prio prio && h.vector == vector
    then h.func ∷ calls_at prio vector hs
    else calls_at prio vector hs

unfoldable pub im_handle : (vector : ℕ) → Handlers → List ℕ
im_handle vector s =
    calls_at prio_first vector s.entries
    ++ (calls_at prio_second vector s.entries ++ calls_at prio_last vector s.entries)
