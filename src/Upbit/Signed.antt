-- ===== src/Upbit/Signed.antt =====
-- The text whose hash a request is signed with.
use coin_bot.Base.{
  ℕ, ◌<◌, false, List, [], ◌∷◌, ◌++◌, append_assoc, append-nil, ◌≡◌, refl, ap, sym, ◌∙◌, All, ◌==◌,
}
use coin_bot.Url.{encode_component, decode_percent}
use coin_bot.Url.Plain.{decode-encode, decode_other}
use coin_bot.Upbit.Exchange.{append_query_param, append_query_params, make_query_strings, separated}

-- The parameters as they are, without any encoding.
unfoldable pub append_plain : List ℕ → List (List ℕ × List ℕ) → List ℕ
append_plain q [] = q
append_plain q ((k, v) ∷ items) = append_plain (separated q ++ (k ++ (b'=' ∷ v))) items

abbrev pub plain_query : List (List ℕ × List ℕ) → List ℕ
plain_query items = append_plain [] items

-- A key without a percent sign, and a value of bytes.
abbrev pub IsParam : List ℕ × List ℕ → Type 0
IsParam (k, v) = All (λ c. (c == b'%') ≡ false) k × All (λ c. c < 256) v

decode_key :
    (k rest : List ℕ)
    → All (λ c. (c == b'%') ≡ false) k
    → decode_percent (k ++ rest) ≡ k ++ decode_percent rest
decode_key [] rest h = refl
decode_key (c ∷ k) rest (e, h) =
    decode_other c (k ++ rest) e ∙ ap (λ t. c ∷ t) (decode_key k rest h)

-- What is encoded so far, and what of it is plain: either nothing, or something of both.
record Decodes (q p : List ℕ) : Type 0 where
  decoded : (rest : List ℕ) → decode_percent (q ++ rest) ≡ p ++ decode_percent rest
  parted :
      (rest : List ℕ) → decode_percent (separated q ++ rest) ≡ separated p ++ decode_percent rest

-- Something was appended.
abbrev Begun : List ℕ → Type 0
Begun [] = ⊥
Begun (c ∷ s) = Unit

separated_lem : (q : List ℕ) → Begun q → separated q ≡ q ++ (b'&' ∷ [])
separated_lem [] h = elim h [ ]
separated_lem (c ∷ q) h = refl

not_nil_after : (a k : List ℕ) (c : ℕ) (s : List ℕ) → Begun (a ++ (k ++ (c ∷ s)))
not_nil_after [] [] c s = tt
not_nil_after [] (x ∷ k) c s = tt
not_nil_after (x ∷ a) k c s = tt

decoded-Decodes :
    (q p : List ℕ)
    → Begun q
    → Begun p
    → ((rest : List ℕ) → decode_percent (q ++ rest) ≡ p ++ decode_percent rest)
    → Decodes q p
decoded-Decodes q p hq hp f = record {
  decoded = f;
  parted = λ rest.
      ap (λ t. decode_percent (t ++ rest)) (separated_lem q hq)
      ∙ ap decode_percent (append_assoc q (b'&' ∷ []) rest)
      ∙ f (b'&' ∷ rest)
      ∙ ap (λ t. p ++ t) (decode_other b'&' rest refl)
      ∙ sym (append_assoc p (b'&' ∷ []) (decode_percent rest))
      ∙ ap (λ t. t ++ decode_percent rest) (sym (separated_lem p hp));
}

-- A part of the query before the rest.
part_decoded :
    (q p k v rest : List ℕ)
    → Decodes q p
    → IsParam (k, v)
    → decode_percent ((separated q ++ (k ++ (b'=' ∷ encode_component v))) ++ rest)
      ≡ (separated p ++ (k ++ (b'=' ∷ v))) ++ decode_percent rest
part_decoded q p k v rest h (key, value) =
    let e = b'=' ∷ encode_component v in
    let f : decode_percent (e ++ rest) ≡ (b'=' ∷ v) ++ decode_percent rest =
      decode_other b'=' (encode_component v ++ rest) refl
      ∙ ap (λ t. b'=' ∷ t) (decode-encode v rest value) in
    let g : decode_percent ((k ++ e) ++ rest) ≡ (k ++ (b'=' ∷ v)) ++ decode_percent rest =
      ap decode_percent (append_assoc k e rest)
      ∙ decode_key k (e ++ rest) key
      ∙ ap (λ t. k ++ t) f
      ∙ sym (append_assoc k (b'=' ∷ v) (decode_percent rest)) in
    ap decode_percent (append_assoc (separated q) (k ++ e) rest)
    ∙ h.parted ((k ++ e) ++ rest)
    ∙ ap (λ t. separated p ++ t) g
    ∙ sym (append_assoc (separated p) (k ++ (b'=' ∷ v)) (decode_percent rest))

param-Decodes :
    (q p k v : List ℕ)
    → Decodes q p
    → IsParam (k, v)
    → Decodes (append_query_param q (k, v)) (separated p ++ (k ++ (b'=' ∷ v)))
unfolding append_query_param
param-Decodes q p k v h a =
    decoded-Decodes (separated q ++ (k ++ (b'=' ∷ encode_component v)))
      (separated p ++ (k ++ (b'=' ∷ v))) (not_nil_after (separated q) k b'=' (encode_component v))
      (not_nil_after (separated p) k b'=' v) (λ rest. part_decoded q p k v rest h a)

params-Decodes :
    (items : List (List ℕ × List ℕ)) (q p : List ℕ)
    → Decodes q p
    → All IsParam items
    → Decodes (append_query_params q items) (append_plain p items)
unfolding append_query_params append_plain
params-Decodes [] q p h a = h
params-Decodes ((k, v) ∷ items) q p h (b, a) =
    params-Decodes items _ _ (param-Decodes q p k v h b) a

-- Whatever the values are, as bytes, the text that is hashed for the signature is the plain text of the
-- parameters, `key=value` with `&` between, although it is got back from the encoded query. No key has a
-- percent sign.
pub hash_is_plain :
    (items : List (List ℕ × List ℕ))
    → All IsParam items
    → (make_query_strings items).hash ≡ plain_query items
unfolding make_query_strings decode_percent append_plain
hash_is_plain items h =
    let d =
      params-Decodes items [] [] (record { decoded = λ rest. refl; parted = λ rest. refl }) h in
    ap decode_percent (sym (append-nil (append_query_params [] items)))
    ∙ d.decoded []
    ∙ append-nil (append_plain [] items)
