-- ===== src/TimeZone/File.antt =====
-- muduo/base/TimeZone.cc: `detail::File`, `readDataBlock`, `readTimeZoneFile` and `loadZoneFile`. A
-- file is its bytes and the position in it; `none` is a `std::logic_error` or what C++ does not define.
pub mod Loaded
pub mod Total
use rfcs.Common.{
  ℕ, zero, suc, ◌+◌, ◌-◌, ◌*◌, ◌^◌, ◌≡◌, Bool, true, false, not, ◌&&◌, ◌||◌, List, [], ◌∷◌, ◌++◌,
  Option, none, some, ltb, leb, ◌==◌, if◌then◌else◌, length, take, drop, ◌>>=◌, ◌>>◌, assert,
}
use rfcs.Common.Int.{ℤ, pos, negsuc, neg_part, pos_part, sub_ℕ, ◌+ℤ◌, ◌*ℤ◌, ltb_ℤ}
use rfcs.Buffer.Ints.{from_network}
use rfcs.TimeZone.{Data, TimeZone, signed32, empty_data, add_local_time, add_transition}

pub record File : Type 0 where
  pub bytes : List ℕ
  pub at : ℕ

-- `fread` of `n` bytes, of which none may be missing.
unfoldable pub read_exactly : ℕ → File → Option (List ℕ × File)
read_exactly n f = do
  let rest = drop f.at f.bytes
  assert (leb n (length rest))
  some (take n rest, record f { at = f.at + n })

-- A number of bytes or of elements that is an `int`: below 0, `char buf[n]` is not defined and
-- `reserve` throws.
unfoldable pub as_count : ℤ → Option ℕ
as_count (pos n) = some n
as_count (negsuc n) = none

unfoldable pub read_bytes : ℤ → File → Option (List ℕ × File)
read_bytes n f = do n ← as_count n; read_exactly n f

unfoldable pub read_to_end : File → List ℕ
read_to_end f = drop f.at f.bytes

-- A pattern of 64 bits as an `int64_t`.
abbrev pub signed64 : ℕ → ℤ
signed64 n = if ltb n (2 ^ 63) then pos n else sub_ℕ n (2 ^ 64)

unfoldable pub read_int64 : File → Option (ℤ × File)
read_int64 f = do (bs, f) ← read_exactly 8 f; some (signed64 (from_network 0 bs), f)

unfoldable pub read_int32 : File → Option (ℤ × File)
read_int32 f = do (bs, f) ← read_exactly 4 f; some (signed32 (from_network 0 bs), f)

unfoldable pub read_uint8 : File → Option (ℕ × File)
read_uint8 f = do (bs, f) ← read_exactly 1 f; some (from_network 0 bs, f)

-- `fseek` from the current position: it fails where that leads before the start.
unfoldable pub skip : ℤ → File → File
skip n f =
    if leb (neg_part n) (f.at + pos_part n)
    then record f { at = f.at + pos_part n - neg_part n }
    else f

-- The loop over `trans`: the moments of 4 or of 8 bytes.
unfoldable pub read_times : Bool → ℕ → File → Option (List ℤ × File)
read_times v1 zero f = some ([], f)
read_times v1 (suc n) f = do
  (t, f) ← if v1 then read_int32 f else read_int64 f
  (ts, f) ← read_times v1 n f
  some (t ∷ ts, f)

-- The loop over `localtimes`.
unfoldable pub read_indices : ℕ → File → Option (List ℕ × File)
read_indices zero f = some ([], f)
read_indices (suc n) f = do (i, f) ← read_uint8 f; (is, f) ← read_indices n f; some (i ∷ is, f)

-- The loop that adds the local times.
unfoldable pub read_local_times : ℕ → File → Data → Option (File × Data)
read_local_times zero f z = some (f, z)
read_local_times (suc n) f z = do
  (gmtoff, f) ← read_int32 f
  (isdst, f) ← read_uint8 f
  (abbrind, f) ← read_uint8 f
  read_local_times n f (add_local_time gmtoff (not (isdst == 0)) (pos abbrind) z)

-- The loop that adds the transitions.
unfoldable pub add_transitions : List ℤ → List ℕ → Data → Option Data
add_transitions (t ∷ ts) (i ∷ is) z = do z ← add_transition t (pos i) z; add_transitions ts is z
add_transitions ts is z = some z

-- The six numbers in front of a block, in their order.
pub record Counts : Type 0 where
  pub isutccnt : ℤ
  pub isstdcnt : ℤ
  pub leapcnt : ℤ
  pub timecnt : ℤ
  pub typecnt : ℤ
  pub charcnt : ℤ

unfoldable pub read_counts : File → Option (Counts × File)
read_counts f = do
  (isutccnt, f) ← read_int32 f
  (isstdcnt, f) ← read_int32 f
  (leapcnt, f) ← read_int32 f
  (timecnt, f) ← read_int32 f
  (typecnt, f) ← read_int32 f
  (charcnt, f) ← read_int32 f
  some (
    record {
      isutccnt = isutccnt;
      isstdcnt = isstdcnt;
      leapcnt = leapcnt;
      timecnt = timecnt;
      typecnt = typecnt;
      charcnt = charcnt;
    },
    f,
  )

abbrev pub same_ℤ : ℤ → ℤ → Bool
same_ℤ a b = not (ltb_ℤ a b) && not (ltb_ℤ b a)

-- The counts that `readDataBlock` handles: no leap seconds, and indicators for all types or none.
unfoldable pub is_handled : Counts → Bool
is_handled c =
    same_ℤ c.leapcnt (pos 0)
    && (same_ℤ c.isutccnt (pos 0) || same_ℤ c.isutccnt c.typecnt)
    && (same_ℤ c.isstdcnt (pos 0) || same_ℤ c.isstdcnt c.typecnt)

unfoldable pub read_data : File → Data → Counts → Bool → Option Data
read_data f z c v1 = do
  timecnt ← as_count c.timecnt
  (trans, f) ← read_times v1 timecnt f
  (localtimes, f) ← read_indices timecnt f
  typecnt ← as_count c.typecnt
  (f, z) ← read_local_times typecnt f z
  z ← add_transitions trans localtimes z
  (abbreviation, f) ← read_bytes c.charcnt f
  let z = record z { abbreviation = abbreviation }
  let time_size = if v1 then 4 else 8
  let f = skip (c.isutccnt) (skip c.isstdcnt (skip (c.leapcnt *ℤ pos (time_size + 4)) f))
  some (if v1 then z else record z { tzstring = read_to_end f })

-- The data that the block fills, where the function returns `true`.
unfoldable pub read_data_block : File → Data → Bool → Option Data
read_data_block f z v1 = do
  (c, f) ← read_counts f
  if is_handled c then read_data f z c v1 else none

-- `string` comparison
unfoldable pub same_bytes : List ℕ → List ℕ → Bool
same_bytes [] [] = true
same_bytes (x ∷ xs) (y ∷ ys) = (x == y) && same_bytes xs ys
same_bytes xs ys = false

-- "TZif"
abbrev pub magic : List ℕ
magic = 84 ∷ 90 ∷ 105 ∷ 102 ∷ []

-- A product of two `int`, which may not overflow.
unfoldable pub int_product : ℤ → ℤ → Option ℤ
int_product a b =
    let p = a *ℤ b in
    if leb (pos_part p) (2 ^ 31 - 1) && leb (neg_part p) (2 ^ 31) then some p else none

-- The length of the version 1 block. Its sum is a `size_t`, which `skip` takes as an `ssize_t`: what
-- wraps around comes back.
unfoldable pub block_size : Counts → Option ℤ
block_size c = do
  types ← int_product (pos 6) c.typecnt
  leaps ← int_product (pos 8) c.leapcnt
  some (pos 4 *ℤ c.timecnt +ℤ c.timecnt +ℤ types +ℤ c.charcnt +ℤ leaps +ℤ c.isstdcnt +ℤ c.isutccnt)

-- The version 1 block is left out, and the header and the block of version 2 follow it.
unfoldable pub read_version2 : File → Counts → Data → Option Data
read_version2 f c z = do
  size ← block_size c
  (head, f) ← read_bytes (pos 4) (skip size f)
  assert (same_bytes head magic)
  read_data_block (skip (pos 16) f) z false

-- The contents of the file, where it can be opened. The result is the data where the function
-- returns `true`.
unfoldable pub read_time_zone_file : Option (List ℕ) → Data → Option Data
read_time_zone_file contents z = do
  bytes ← contents
  let f : File = record { bytes = bytes; at = 0 }
  (head, f) ← read_bytes (pos 4) f
  assert (same_bytes head magic)
  (version, f) ← read_bytes (pos 1) f
  (reserved, f) ← read_bytes (pos 15) f
  (c, f) ← read_counts f
  if same_bytes version (50 ∷ [])
      then read_version2 f c z
      else read_data_block (skip (negsuc 23) f) z true

unfoldable pub load_zone_file : Option (List ℕ) → TimeZone
load_zone_file contents = record { zone_data = read_time_zone_file contents empty_data }
