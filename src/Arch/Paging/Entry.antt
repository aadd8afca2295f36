-- ===== src/Arch/Paging/Entry.antt =====
-- `PageTableEntryFlags` and `PageTableEntry` of paging.rs, as 64-bit words. `none` is a failed
-- assertion; `width` is the number of physical address bits of the processor.
use libhermit_mpk.Prelude.{
  ℕ, ◌*◌, ◌/◌, ◌%◌, ◌^◌, Bool, not, Option, none, some, ◌&&◌, ◌==◌, if◌then◌else◌, sub64, bit_and,
  bit_or, not64, u64_mod,
}
use libhermit_mpk.Arch.PhysicalMem.{base_page_size}

abbrev pub large_page_size : ℕ
large_page_size = 2097152

abbrev pub present : ℕ
present = 1

abbrev pub writable_flag : ℕ
writable_flag = 2

abbrev pub user_accessible : ℕ
user_accessible = 4

abbrev pub cache_disable : ℕ
cache_disable = 16

abbrev pub accessed : ℕ
accessed = 32

abbrev pub dirty : ℕ
dirty = 64

abbrev pub huge_page : ℕ
huge_page = 128

abbrev pub execute_disable_flag : ℕ
execute_disable_flag = 2 ^ 63

-- `insert` and `remove` of the flags.
abbrev pub insert : ℕ → ℕ → ℕ
insert flags other = bit_or flags other

abbrev pub remove : ℕ → ℕ → ℕ
remove flags other = bit_and flags (not64 other)

unfoldable pub device : ℕ → ℕ
device flags = insert flags cache_disable

unfoldable pub normal : ℕ → ℕ
normal flags = remove flags cache_disable

unfoldable pub read_only : ℕ → ℕ
read_only flags = remove flags writable_flag

unfoldable pub writable : ℕ → ℕ
writable flags = insert flags writable_flag

unfoldable pub execute_disable : ℕ → ℕ
execute_disable flags = insert flags execute_disable_flag

-- `x << 59` of a word drops what leaves it.
abbrev pub shift_key : ℕ → ℕ
shift_key key = key * 2 ^ 59 % u64_mod

unfoldable pub pkey : ℕ → ℕ → ℕ
pkey key flags = insert flags (shift_key (bit_and key 15))

unfoldable pub set_bits : ℕ → ℕ → ℕ
set_bits new_bits flags = insert flags new_bits

abbrev pub key_mask : ℕ
key_mask = not64 (0xf * 2 ^ 59)

unfoldable pub address : ℕ → ℕ
address word =
    bit_and (bit_and (bit_and word (not64 (sub64 base_page_size 1))) (not64 execute_disable_flag))
      key_mask

unfoldable pub get_flags : ℕ → ℕ
get_flags word = bit_and word (bit_or (sub64 base_page_size 1) execute_disable_flag)

abbrev pub has_flag : ℕ → ℕ → Bool
has_flag word flag = not (bit_and word flag == 0)

unfoldable pub is_present : ℕ → Bool
is_present word = has_flag word present

unfoldable pub is_huge : ℕ → Bool
is_huge word = has_flag word huge_page

unfoldable pub is_user : ℕ → Bool
is_user word = has_flag word user_accessible

-- `contains` of the flags.
abbrev pub contains : ℕ → ℕ → Bool
contains flags other = bit_and flags other == other

-- The flags that `set` writes.
abbrev pub flags_to_set : ℕ → ℕ
flags_to_set flags = insert (insert (insert flags present) accessed) user_accessible

unfoldable pub set : ℕ → ℕ → ℕ → Option ℕ
set width physical_address flags =
    if ((if contains flags huge_page
        then physical_address % large_page_size == 0
        else physical_address % base_page_size == 0)
      && physical_address / 2 ^ width == 0)
    then some (bit_or physical_address (flags_to_set flags))
    else none

-- The new word of `set_pkey_on_page_table_entry`.
unfoldable pub with_pkey : ℕ → ℕ → ℕ
with_pkey word key = bit_or (bit_and word key_mask) (shift_key key)
