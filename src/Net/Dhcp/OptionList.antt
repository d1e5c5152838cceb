-- ===== src/Net/Dhcp/OptionList.antt =====
-- kernel/src/net/dhcp.rs: the options of a message are read back.
use barry_os.Net.Arp.{slice}
use barry_os.Net.Dhcp.Parse.{Options, take_option, read_options, options, no_options}
use barry_os.Common.{
  ne→==, ◌≤◌, length, All, ◌<◌, ◌∷◌, ◌≡◌, arith, ◌++◌, [], suc, ap, length-append, ◌∙◌, sym, get_or,
  ◌+◌, get_or-append, append_assoc, refl, if-cases, zero, take, leb, drop-append, take-append,
  gt→leb, ne→==, ge→ltb, List, ℕ,
}

-- A code and what it carries.
pub record Item : Type 0 where
  pub code : ℕ
  pub bytes : List ℕ

-- One byte for the code, one for the length, then the bytes.
unfoldable pub encode : List Item → List ℕ
encode [] = []
encode (i ∷ items) = i.code ∷ length i.bytes ∷ (i.bytes ++ encode items)

-- A code that is neither the padding nor the end mark.
abbrev pub IsItem : Item → Type 0
IsItem i = (1 ≤ i.code) × (i.code < 255)

unfoldable pub take_all_options : Options → List Item → Options
take_all_options o [] = o
take_all_options o (i ∷ items) = take_all_options (take_option o i.code i.bytes) items

-- One step of the loop, at an item.
read_item :
    (payload pre rest : List ℕ) (fuel : ℕ) (o : Options) (i : Item)
    → IsItem i
    → payload ≡ pre ++ (i.code ∷ length i.bytes ∷ (i.bytes ++ rest))
    → read_options payload (suc fuel) (length pre) o
      ≡ read_options payload fuel (length pre + 2 + length i.bytes) (take_option o i.code i.bytes)
unfolding read_options
read_item payload pre rest fuel o i h e =
    let opt = length pre in
    let tail = i.code ∷ length i.bytes ∷ (i.bytes ++ rest) in
    let code : get_or payload opt 0 ≡ i.code =
      ap (λ xs. get_or xs opt 0) e ∙ get_or-append pre tail opt 0 0 (omega arith) in
    let len : get_or payload (opt + 1) 0 ≡ length i.bytes =
      ap (λ xs. get_or xs (opt + 1) 0) e ∙ get_or-append pre tail (opt + 1) 1 0 (omega arith) in
    let bytes : slice payload (opt + 2) (length i.bytes) ≡ i.bytes =
      ap (λ xs. slice xs (opt + 2) (length i.bytes)) e
      ∙ ap (take (length i.bytes)) (drop-append pre tail (opt + 2) 2 (omega arith))
      ∙ take-append i.bytes rest (length i.bytes) refl in
    let size : length payload ≡ opt + (2 + (length i.bytes + length rest)) =
      ap length e ∙ omega (arith, length-append pre tail, length-append i.bytes rest) in
    rw
      (
        code,
        len,
        bytes,
        gt→leb (length payload) opt (omega (arith, size)),
        ne→== i.code 255 (λ z. absurd (omega (arith, z, h.1))),
        ne→== i.code 0 (λ z. absurd (omega (arith, z, h.0))),
        gt→leb (length payload) (opt + 1) (omega (arith, size)),
        ge→ltb (length payload) (opt + 2 + length i.bytes) (omega (arith, size)),
      )
      refl

-- The end mark ends the loop.
read_end :
    (payload pre post : List ℕ) (fuel : ℕ) (o : Options)
    → payload ≡ pre ++ (255 ∷ post)
    → read_options payload fuel (length pre) o ≡ o
unfolding read_options
read_end payload pre post zero o e = refl
read_end payload pre post (suc fuel) o e =
    let code : get_or payload (length pre) 0 ≡ 255 =
      ap (λ xs. get_or xs (length pre) 0) e
      ∙ get_or-append pre (255 ∷ post) (length pre) 0 0 (omega arith) in
    if-cases (λ r. r ≡ o) (leb (length payload) (length pre)) o _ (λ h. refl) λ h. rw (code) refl

read_options-encode :
    (payload pre post : List ℕ) (items : List Item) (fuel : ℕ) (o : Options)
    → All IsItem items
    → length items ≤ fuel
    → payload ≡ pre ++ (encode items ++ (255 ∷ post))
    → read_options payload fuel (length pre) o ≡ take_all_options o items
unfolding encode take_all_options
read_options-encode payload pre post [] fuel o v h e = read_end payload pre post fuel o e
read_options-encode payload pre post (i ∷ items) zero o v h e = absurd (omega arith)
read_options-encode payload pre post (i ∷ items) (suc fuel) o v h e =
    let item = i.code ∷ length i.bytes ∷ i.bytes in
    let rest = encode items ++ (255 ∷ post) in
    let whole : payload ≡ pre ++ (i.code ∷ length i.bytes ∷ (i.bytes ++ rest)) =
      e
      ∙ ap (λ xs. pre ++ (i.code ∷ length i.bytes ∷ xs))
          (append_assoc i.bytes (encode items) (255 ∷ post)) in
    read_item payload pre rest fuel o i v.0 whole
    ∙ ap (λ k. read_options payload fuel k (take_option o i.code i.bytes))
        {y = length (pre ++ item)} (omega (arith, length-append pre item))
    ∙ read_options-encode payload (pre ++ item) post items fuel (take_option o i.code i.bytes) v.1
        (omega arith) (whole ∙ sym (append_assoc pre item rest))

encode-length : (items : List Item) → length items ≤ length (encode items)
unfolding encode
encode-length [] = omega arith
encode-length (i ∷ items) = omega (arith, encode-length items, length-append i.bytes (encode items))

-- A message whose options area is a list of options, each with a code that is not padding and not the
-- end mark, then the end mark, is read as those options taken in order; the loop ends there.
pub options-encode :
    (pre post : List ℕ) (items : List Item)
    → length pre ≡ 240
    → All IsItem items
    → options (pre ++ (encode items ++ (255 ∷ post))) ≡ take_all_options no_options items
unfolding options
options-encode pre post items h v =
    let payload = pre ++ (encode items ++ (255 ∷ post)) in
    ap (λ k. read_options payload (length payload) k no_options) (sym h)
    ∙ read_options-encode payload pre post items (length payload) no_options v
        (omega (
          arith,
          length-append pre (encode items ++ (255 ∷ post)),
          length-append (encode items) (255 ∷ post),
          encode-length items,
        ))
        refl
