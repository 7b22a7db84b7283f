-- ===== src/Detect/DnsTests.antt =====
-- The question of a query for `www.EXAMPLE`.
use network_monitoring.Base.{◌≡◌, refl, ◌≢◌, some, List, [], ◌∷◌, ◌++◌, map, arith, Str, codes, All}
use network_monitoring.Base.Checked.{ok, fault}
use network_monitoring.Detect.Dns.{read_first_question, read_labels, lower_latin1}
use network_monitoring.Detect.Dns.Laws.{
  encode_labels, IsLabel, read_first_question-ne-fault, read_first_question-encode,
}
use network_monitoring.Js.Buffer.{
  Buffer, read_uint8, read_uint16_be, read_be, be_at, be_from, subarray,
}
use network_monitoring.Js.Text.{join}

abbrev pub labels : List Str
labels = codes "www" ∷ codes "EXAMPLE" ∷ []

abbrev pub query : Buffer
query =
    (1 ∷ 2 ∷ 1 ∷ 0 ∷ [])
    ++ (0 ∷ 1 ∷ ((0 ∷ 0 ∷ 0 ∷ 0 ∷ 0 ∷ 0 ∷ []) ++ (encode_labels labels ++ (0 ∷ 1 ∷ 0 ∷ 1 ∷ []))))

question : read_first_question query ≡ ok (some (codes "www.example"))
unfolding read_first_question read_labels read_uint8 read_uint16_be read_be be_at be_from subarray
    join
question = refl

read_first_question-ne-fault_example : read_first_question query ≢ fault
read_first_question-ne-fault_example = read_first_question-ne-fault query

pub labels-All-IsLabel : All IsLabel labels
labels-All-IsLabel = ((omega arith, omega arith), ((omega arith, omega arith), tt))

read_first_question-encode_example :
    read_first_question query ≡ ok (some (map lower_latin1 (join (codes ".") labels)))
read_first_question-encode_example =
    read_first_question-encode (1 ∷ 2 ∷ 1 ∷ 0 ∷ []) 0 1 (0 ∷ 0 ∷ 0 ∷ 0 ∷ 0 ∷ 0 ∷ []) (codes "www")
      (codes "EXAMPLE" ∷ []) (0 ∷ 1 ∷ 0 ∷ 1 ∷ []) refl refl (omega arith) labels-All-IsLabel
      (omega arith)
