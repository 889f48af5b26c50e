-- ===== src/Theorems/Identifiers.antt =====
-- path/exec/keyvalue.go: the identifiers of the objects.
use sqljson.Prelude.{ap, ◌*◌, ◌≤◌, ◌<◌, ◌↔◌, ℕ, ◌+◌, ◌≡◌, arith}
use sqljson.Theorems.Arithmetic.{wrap64_id}
use sqljson.Prelude.Int.{wrap64, two63, pos}
use sqljson.Exec.KeyValue.{pair_id, offset_of, ten_ten}

pos_injective : (m n : ℕ) → pos m ≡ pos n → m ≡ n
pos_injective m n h = cc

id_of_int64 : (n : ℕ) → n < two63 → wrap64 (pos n) ≡ pos n
id_of_int64 n h = wrap64_id (pos n) h

-- Two objects at distances below 10 ^ 10 from base objects with identifiers up to 9 * 10 ^ 8 are
-- given the same identifier if and only if the base objects have the same one and the distances are
-- the same.
pub pair_id_iff :
    (a i x b j y : ℕ)
    → offset_of a x < ten_ten
    → offset_of b y < ten_ten
    → i ≤ 900000000
    → j ≤ 900000000
    → (pair_id a i x ≡ pair_id b j y) ↔ ((i ≡ j) × (offset_of a x ≡ offset_of b y))
unfolding pair_id
pair_id_iff a i x b j y h k small small' =
    let e = id_of_int64 (offset_of a x + i * ten_ten) (omega arith) in
    let e' = id_of_int64 (offset_of b y + j * ten_ten) (omega arith) in
    rw (e, e')
      (
        (λ same.
            let same' = pos_injective _ _ same in (omega (arith, same'), omega (arith, same'))),
        (λ (i_j, x_y). ap pos (omega (arith, i_j, x_y))),
      )
