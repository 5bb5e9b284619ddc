-- ===== src/Api/FolderView.antt =====
-- The sizes and Merkle roots of a folder's page (api/gateway/folderView.go). A size that is shown in a
-- larger unit is kept as the size, its divisor and the unit.
pub mod Units
use sequoia.Prelude.{
  ℕ, zero, suc, ◌+◌, ◌*◌, ◌/◌, ◌%◌, ◌-◌, ◌==◌, if◌then◌else◌, Bool, List, [], ◌∷◌, ◌++◌, Option,
  none, some, length, take, drop, leb, ltb, get_elem?,
}
use sequoia.Prelude.Bytes.{Bytes, codes}
use sequoia.Prelude.Bytes.Hex.{hex_encode}

pub data Shown : Type 0 where
  bytes : ℕ → Shown
  scaled : (size div unit : ℕ) → Shown
  -- The unit's index is out of range.
  index_panic : Shown

abbrev pub unit : ℕ
unit = 1024

-- The divisor and the exponent, over uint64; the fuel is for the divisions.
unfoldable pub scale : ℕ → (n div exp : ℕ) → ℕ × ℕ
scale zero n div exp = (div, exp)
scale (suc fuel) n div exp =
    let next = scale fuel (n / unit) ((div * unit) % 18446744073709551616) (suc exp) in
    if leb unit n then next else (div, exp)

abbrev with_unit : ℕ → ℕ → Option ℕ → Shown
with_unit size div none = index_panic
with_unit size div (some u) = scaled size div u

abbrev pub in_units : ℕ → ℕ × ℕ → Shown
in_units size (div, exp) = with_unit size div (get_elem? (codes "KMGTPE") exp)

-- `formatSize`.
unfoldable pub format_size : ℕ → Shown
unfolding scale
format_size size =
    if size == 0
    then bytes 0
    else if ltb size unit
    then bytes size
    else in_units size (scale 7 (size / unit) unit 0)

-- `truncateMerkleHex`.
unfoldable pub truncate_merkle_hex : Bytes → Bytes
truncate_merkle_hex merkle =
    let encoded = hex_encode merkle in
    if leb (length encoded) 10
    then encoded
    else take 6 encoded ++ (codes "..." ++ drop (length encoded - 4) encoded)
