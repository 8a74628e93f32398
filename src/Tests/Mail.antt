-- ===== src/Tests/Mail.antt =====
-- Ids and filter scripts of the mail server at concrete inputs.
use hosting.Common.{◌≤◌, ◌≡◌, refl, true, false, Bytes, codes, some, List, [], ◌∷◌, length, arith}
use hosting.Stalwart.PrincipalId.{
  encode_principal_id, encode_digits, get_or, number, encode_principal_id-number,
}
use hosting.Stalwart.Sieve.{ForwardRule, generate_forward_script}
use hosting.Stalwart.Reader.{read_script}
use hosting.Stalwart.Scripts.{read_script-generate}

-- The cases of internal/stalwart/id_test.go.
id_of_67 : encode_principal_id 67 ≡ some (codes "cd")
unfolding encode_principal_id encode_digits get_or
id_of_67 = refl

id_of_1000 : encode_principal_id 1000 ≡ some (codes "3i")
unfolding encode_principal_id encode_digits get_or
id_of_1000 = refl

encode_principal_id-number_example :
    (text : Bytes) × (encode_principal_id 4294967295 ≡ some text)
    × (number 0 text ≡ 4294967295)
    × (length text ≤ 7)
encode_principal_id-number_example = encode_principal_id-number 4294967295 (omega arith)

abbrev forwards : List ForwardRule
forwards =
    record { destination = codes "a@b.io"; keep_copy = true }
    ∷ record { destination = codes "c@d.io"; keep_copy = false }
    ∷ []

read_script-generate_example : read_script (generate_forward_script forwards) ≡ some forwards
read_script-generate_example = read_script-generate forwards (omega arith)
