-- ===== src/Ink/Proto/RoundTrip.antt =====
-- Headers that are built, and what the parser makes of them.
use finit.Prelude.{
  ℕ, suc, ◌+◌, ◌^◌, ◌≤◌, ◌<◌, arith, false, ltb, ◌≡◌, refl, ap, sym, ◌∙◌, List, [], ◌∷◌, ◌++◌,
  length, length-append, take, drop, replicate, none, some,
}
use finit.Ink.Writer.{padding, u32_bytes}
use finit.Ink.Reader.{rd_u32}
use finit.Ink.Fields.{append_assoc, At, At-append, drop-At, length-At, past, rd_u32-u32_bytes}
use finit.Ink.Proto.{
  Msg, FieldValue, text, sign, number, store_field, hdr_fixed_size, max_msg_size, aligned, message,
  fixed_part, parse_rest, msg_parse,
}
use finit.Ink.Proto.Fields.{field_bytes, length-field_bytes}
use finit.Ink.Proto.Walk.{FieldEntry, entries_bytes, AllFit, store_all, walk-At, Holds}
use finit.Ink.Proto.Build.{put_padding, finalize_header}

-- The bytes of a header with these fields.
abbrev pub header_bytes : ℕ → ℕ → ℕ → ℕ → List FieldEntry → List ℕ
header_bytes type flags body_len serial fs =
    let fields = entries_bytes 16 fs in
    108
    ∷ type
    ∷ flags
    ∷ 1
    ∷ (u32_bytes body_len
        ++ (u32_bytes serial
            ++ (u32_bytes (length fields)
                ++ (fields ++ replicate (padding (16 + length fields) 8) 0))))

-- What the parser makes of the fixed part, and of the fields.
abbrev pub blank : ℕ → ℕ → ℕ → ℕ → Msg
blank type flags body_len serial = record {
  type = type;
  flags = flags;
  body_len = body_len;
  serial = serial;
  reply_serial = 0;
  path = none;
  interface = none;
  member = none;
  error_name = none;
  destination = none;
  sender = none;
  signature = none;
  body = [];
}

take-length : (xs ys : List ℕ) → take (length xs) (xs ++ ys) ≡ xs
take-length [] ys = refl
take-length (x ∷ xs) ys = ap (λ t. x ∷ t) (take-length xs ys)

-- A field has a byte at least.
count_le : (o : ℕ) (fs : List FieldEntry) → length fs ≤ length (entries_bytes o fs)
count_le o [] = omega arith
count_le o ((code, vsig, v) ∷ fs) =
    let next = o + length (field_bytes o code vsig v) in
    omega (
      arith,
      count_le next fs,
      length-field_bytes o code vsig v,
      length-append (field_bytes o code vsig v) (entries_bytes next fs),
    )

pub store_field-body_len :
    (code : ℕ) (v : FieldValue) (m : Msg) → (store_field code v m).body_len ≡ m.body_len
unfolding store_field
store_field-body_len code (text s) m = ground arith
store_field-body_len code (sign s) m = ground arith
store_field-body_len code (number v) m = ground arith

store_all-body_len : (fs : List FieldEntry) (m : Msg) → (store_all fs m).body_len ≡ m.body_len
store_all-body_len [] m = refl
store_all-body_len ((code, vsig, v) ∷ fs) m =
    store_all-body_len fs (store_field code v m) ∙ store_field-body_len code v m

-- The fields and what follows them, at their places.
fields-At :
    (type flags n serial : ℕ) (fs : List FieldEntry) (tail : List ℕ)
    → At 16 (header_bytes type flags n serial fs ++ tail) (
        entries_bytes 16 fs
        ++ (replicate (padding (16 + length (entries_bytes 16 fs)) 8) 0 ++ tail))
unfolding u32_bytes
fields-At type flags n serial fs tail =
    let e = entries_bytes 16 fs in
    let r : List ℕ = replicate (padding (16 + length e) 8) 0 in
    (
      108 ∷ type ∷ flags ∷ 1 ∷ (u32_bytes n ++ (u32_bytes serial ++ u32_bytes (length e))),
      refl,
      ap
          (λ t.
            108
            ∷ type
            ∷ flags
            ∷ 1
            ∷ (u32_bytes n ++ (u32_bytes serial ++ (u32_bytes (length e) ++ t))))
          (sym (append_assoc e r tail)),
    )

fixed_part-header :
    (type flags n serial : ℕ) (fs : List FieldEntry) (tail : List ℕ)
    → n < 2 ^ 32
    → serial < 2 ^ 32
    → fixed_part (header_bytes type flags n serial fs ++ tail) ≡ blank type flags n serial
unfolding u32_bytes
fixed_part-header type flags n serial fs tail hn hs =
    let e = entries_bytes 16 fs in
    let r : List ℕ = replicate (padding (16 + length e) 8) 0 in
    let f = rd_u32 (drop 8 (header_bytes type flags n serial fs ++ tail)) in
    ap (λ x. blank type flags x f)
      (rd_u32-u32_bytes n (u32_bytes serial ++ (u32_bytes (length e) ++ ((e ++ r) ++ tail))) hn)
    ∙ ap (λ y. blank type flags n y)
        (rd_u32-u32_bytes serial (u32_bytes (length e) ++ ((e ++ r) ++ tail)) hs)

fields_len-header :
    (type flags n serial : ℕ) (fs : List FieldEntry) (tail : List ℕ)
    → length (entries_bytes 16 fs) < 2 ^ 32
    → rd_u32 (drop 12 (header_bytes type flags n serial fs ++ tail)) ≡ length (entries_bytes 16 fs)
unfolding u32_bytes
fields_len-header type flags n serial fs tail h =
    let e = entries_bytes 16 fs in
    let r : List ℕ = replicate (padding (16 + length e) 8) 0 in
    rd_u32-u32_bytes (length e) ((e ++ r) ++ tail) h

-- The rest of the parse, from what the walk returns.
parse_rest-header :
    (b : List ℕ) (type flags serial : ℕ) (fs : List FieldEntry) (body rest : List ℕ)
    → (let e = entries_bytes 16 fs in
        At 16 b (e ++ (replicate (padding (16 + length e) 8) 0 ++ (body ++ rest)))
        → AllFit fs
        → length e ≤ max_msg_size
        → length body ≤ max_msg_size
        → parse_rest b (blank type flags (length body) serial) (length e)
          ≡ message
              (record (store_all fs (blank type flags (length body) serial)) { body = body })
              (aligned (16 + length e) 8 + length body))
parse_rest-header b type flags serial fs body rest h fit le lb =
    let e = entries_bytes 16 fs in
    let m = blank type flags (length body) serial in
    let p = padding (16 + length e) 8 in
    let h1 = At-append 16 b e (replicate p 0 ++ (body ++ rest)) h in
    let h2 = past (16 + length e) 8 b (body ++ rest) h1 in
    let found =
      walk-At (suc (length e)) b (16 + length e) 16 fs (replicate p 0 ++ (body ++ rest)) m fit h
        refl (omega (arith, count_le 16 fs)) in
    rw
      (
        found,
        store_all-body_len fs m,
        drop-At (16 + length e + p) b (body ++ rest) h2,
        take-length body rest,
      )
      (ground (arith, length-At (16 + length e + p) b (body ++ rest) h2, length-append body rest))

not_short : (b : List ℕ) → 16 ≤ length b → ltb (length b) hdr_fixed_size ≡ false
not_short b h = ground arith

header_bytes-long :
    (type flags n serial : ℕ) (fs : List FieldEntry) (tail : List ℕ)
    → 16 ≤ length (header_bytes type flags n serial fs ++ tail)
unfolding u32_bytes
header_bytes-long type flags n serial fs tail = omega arith

-- A message is parsed as what its header has been built of.
pub msg_parse-header :
    (type flags serial : ℕ) (fs : List FieldEntry) (body rest : List ℕ)
    → AllFit fs
    → length (entries_bytes 16 fs) ≤ max_msg_size
    → length body ≤ max_msg_size
    → serial < 2 ^ 32
    → msg_parse (header_bytes type flags (length body) serial fs ++ (body ++ rest))
      ≡ message
          (record (store_all fs (blank type flags (length body) serial)) { body = body })
          (aligned (16 + length (entries_bytes 16 fs)) 8 + length body)
unfolding msg_parse
msg_parse-header type flags serial fs body rest fit le lb ls =
    let b = header_bytes type flags (length body) serial fs ++ (body ++ rest) in
    let long = header_bytes-long type flags (length body) serial fs (body ++ rest) in
    let h = fields-At type flags (length body) serial fs (body ++ rest) in
    let m = blank type flags (length body) serial in
    let fixed =
      fixed_part-header type flags (length body) serial fs (body ++ rest) (omega arith) ls in
    let count = fields_len-header type flags (length body) serial fs (body ++ rest) (omega arith) in
    rw (not_short b long) (
      ap (λ x. parse_rest b x (rd_u32 (drop 12 b))) fixed
      ∙ (ap (λ k. parse_rest b m k) count
          ∙ parse_rest-header b type flags serial fs body rest h fit le lb))

-- What `finalize_header` writes, around the fields that are there.
pub finalize-Holds :
    (cap type flags n serial : ℕ) (out hdr : List ℕ) (fs : List FieldEntry)
    → Holds out fs
    → finalize_header cap type flags n serial out ≡ some hdr
    → hdr ≡ header_bytes type flags n serial fs
unfolding finalize_header put_padding
finalize-Holds cap type flags n serial out hdr fs h e = rw⁻¹ h (ground (arith, e))
