-- ===== src/Theorems/Encoding.antt =====
-- The choice of a layout in UnmarshalJSON (path/types).
use sqljson.Prelude.{
  ℕ, zero, suc, ◌-◌, ◌≤◌, ◌<◌, ◌≡◌, ◌≢◌, ◌↔◌, refl, sym, ap, ◌∙◌, arith, true, false, Bool-cases,
  inl, inr, Str, String, bytes, Option, none, some, is_some, [], ◌∷◌, ◌++◌, ltb, length,
  if◌then◌else◌,
}
use sqljson.Json.{Time}
use sqljson.Types.{Zone}
use sqljson.Types.Encoding.{
  decoded, refused, panicked, unquoted, byte_at, byte_before, if_sign, time_tz_layout,
  timestamp_tz_layout, read, decode, unmarshal_time_tz, unmarshal_timestamp_tz,
}

-- A JSON string, in its quotes.
abbrev pub quoted : Str → Str
quoted s = b'"' ∷ (s ++ (b'"' ∷ []))

unquoted-quoted : (s : Str) → unquoted (quoted s) ≡ some s
unquoted-quoted [] = refl
unquoted-quoted (c ∷ []) = refl
unquoted-quoted (c ∷ d ∷ s) = added (unquoted-quoted (d ∷ s))
  where
    added :
        unquoted (quoted (d ∷ s)) ≡ some (d ∷ s) → unquoted (quoted (c ∷ d ∷ s)) ≡ some (c ∷ d ∷ s)
    added e = ground (arith, e)

byte_at-is_some : (n : ℕ) (s : Str) → n < length s → is_some (byte_at n s) ≡ true
byte_at-is_some n [] h = absurd (omega arith)
byte_at-is_some zero (c ∷ s) h = refl
byte_at-is_some (suc n) (c ∷ s) h = byte_at-is_some n s (omega arith)

byte_before-is_some : (k : ℕ) (s : Str) → 0 < k → k ≤ length s → is_some (byte_before k s) ≡ true
byte_before-is_some k s p h =
    let e : ltb (length s) k ≡ false = ground arith in
    rw e (byte_at-is_some (length s - k) s (omega arith))

if_sign-is_some :
    (o : Option ℕ) (a b : Option String)
    → is_some o ≡ true
    → is_some a ≡ true
    → is_some b ≡ true
    → is_some (if_sign o a b) ≡ true
if_sign-is_some none a b h p q = cc
if_sign-is_some (some c) a b h p q = ground (arith, p, q)

timestamp_tz_layout-is_some : (s : Str) → is_some (timestamp_tz_layout s) ≡ true
unfolding timestamp_tz_layout
timestamp_tz_layout-is_some s = elim (Bool-cases (ltb (length s) 9)) [
  | inl e ↦ rw e (minutes s)
  | inr e ↦ rw e (
      if_sign-is_some (byte_at (length s - 9) s) (some "2006-01-02T15:04:05.999999999Z07:00:00") _
        (byte_at-is_some (length s - 9) s (ground arith)) refl (minutes s))
]
  where
    minutes :
        (s : Str)
        → is_some (
            if ltb (length s) 6
            then some "2006-01-02T15:04:05.999999999Z07"
            else if_sign
                (byte_before 6 s)
                (some "2006-01-02T15:04:05.999999999Z07:00")
                (some "2006-01-02T15:04:05.999999999Z07"))
          ≡ true
    minutes s = elim (Bool-cases (ltb (length s) 6)) [
      | inl e ↦ rw e refl
      | inr e ↦ rw e (
          if_sign-is_some (byte_at (length s - 6) s) (some "2006-01-02T15:04:05.999999999Z07:00")
            (some "2006-01-02T15:04:05.999999999Z07")
            (byte_at-is_some (length s - 6) s (ground arith)) refl refl)
    ]

time_tz_layout-is_some : (s : Str) → 9 ≤ length s → is_some (time_tz_layout s) ≡ true
unfolding time_tz_layout
time_tz_layout-is_some s h =
    if_sign-is_some (byte_before 9 s) (some "15:04:05.999999999Z07:00:00") _
      (byte_before-is_some 9 s (omega arith) h) refl
      (if_sign-is_some (byte_before 6 s) (some "15:04:05.999999999Z07:00")
        (some "15:04:05.999999999Z07") (byte_before-is_some 6 s (omega arith) (omega (arith, h)))
        refl refl)

time_tz_layout-none : (s : Str) → length s < 9 → time_tz_layout s ≡ none
unfolding time_tz_layout
time_tz_layout-none s h = let e : ltb (length s) 9 ≡ true = ground arith in rw e refl

module _ (Z : Zone) where
  read-ne-panicked :
      (make : Time → Time) (l : Option String) (s : Str)
      → is_some l ≡ true
      → read Z make l s ≢ panicked
  read-ne-panicked make none s h = λ e. cc
  read-ne-panicked make (some l) s h = told (Z.parse_layout (bytes l) s)
    where
      told : (r : Option Time) → elim r [ none ↦ refused | some t ↦ decoded (make t) ] ≢ panicked
      told none = λ e. cc
      told (some t) = λ e. cc

  decode-quoted :
      (make : Time → Time) (layout : Str → Option String) (s : Str)
      → decode Z make layout (quoted s) ≡ read Z make (layout s) s
  decode-quoted make layout s =
      ap (λ o. elim o [ none ↦ panicked | some t ↦ read Z make (layout t) t ]) (unquoted-quoted s)

  -- On a JSON string in its quotes, UnmarshalJSON of TimestampTZ never panics, and that of TimeTZ panics
  -- exactly if fewer than nine bytes stand between the quotes.
  pub unmarshal_tz_lem :
      (s : Str)
      → (unmarshal_timestamp_tz Z (quoted s) ≢ panicked)
        × ((unmarshal_time_tz Z (quoted s) ≡ panicked) ↔ (length s < 9))
  unfolding unmarshal_timestamp_tz unmarshal_time_tz
  unmarshal_tz_lem s = (
    (λ e.
        read-ne-panicked (λ t. t) (timestamp_tz_layout s) s (timestamp_tz_layout-is_some s)
          (sym (decode-quoted (λ t. t) timestamp_tz_layout s) ∙ e)),
    (
      (λ e. panics-short (sym (decode-quoted (λ t. t) time_tz_layout s) ∙ e)),
      (λ h. decode-quoted (λ t. t) time_tz_layout s ∙ short-panics h),
    ),
  )
    where
      panics-short : read Z (λ t. t) (time_tz_layout s) s ≡ panicked → length s < 9
      panics-short e = elim (Bool-cases (ltb (length s) 9)) [
        | inl f ↦ ground (arith, f)
        | inr f ↦ absurd (
            read-ne-panicked (λ t. t) (time_tz_layout s) s
              (time_tz_layout-is_some s (ground (arith, f))) e)
      ]

      short-panics : length s < 9 → read Z (λ t. t) (time_tz_layout s) s ≡ panicked
      short-panics h = ap (λ l. read Z (λ t. t) l s) (time_tz_layout-none s h)
