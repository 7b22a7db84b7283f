-- ===== src/Detect/Dns/Laws.antt =====
-- Reading a DNS question
-- (api/src/packet/detect/dns-tunneling.ts, `readFirstQuestion`).
use network_monitoring.Base.{
  ℕ, zero, suc, ◌+◌, ◌-◌, ◌*◌, ◌≤◌, ◌<◌, ◌≡◌, refl, ◌≢◌, ap, sym, ◌∙◌, true, false, some, List, [],
  ◌∷◌, ◌++◌, map, arith, ltb, leb, nat_beq, length, length-append, drop, take, Str, codes, All,
  Bool-cases, inl, inr, ltb→lt,
}
use mathlib.Core.List.{append_assoc, append-nil}
use network_monitoring.Base.Checked.{ok, fault, bind-ne-fault, ok-ne-fault}
use network_monitoring.Detect.Dns.{read_labels, read_first_question, lower_latin1}
use network_monitoring.Js.Buffer.{
  Buffer, read_uint8, read_uint16_be, read_be, be_at, subarray, be_from, read_uint8-ne-fault,
  read_uint16_be-ne-fault,
}
use network_monitoring.Js.Text.{join}

-- 64 labels are the most that are read, so the fuel that is left covers those to come.
read_labels-ne-fault :
    (fuel : ℕ) (payload : Buffer) (offset : ℕ) (labels : List Str)
    → 65 ≤ fuel + length labels
    → length labels ≤ 63
    → read_labels fuel payload offset labels ≢ fault
unfolding read_labels
read_labels-ne-fault zero payload offset labels h k = absurd (omega arith)
read_labels-ne-fault (suc fuel) payload offset labels h k =
    elim (Bool-cases (ltb offset (length payload))) [
      | inr done ↦ rw done (ok-ne-fault _)
      | inl inside ↦ rw inside (
          bind-ne-fault (read_uint8 payload offset) _
            (read_uint8-ne-fault payload offset (ltb→lt _ _ inside))
            (λ size. ground (
              arith,
              length-append labels (subarray payload (offset + 1) (offset + 1 + size) ∷ []),
              read_labels-ne-fault fuel payload (offset + 1 + size)
                  (labels ++ (subarray payload (offset + 1) (offset + 1 + size) ∷ [])),
            )))
    ]

-- A query of any bytes is read without a fault, within 65 rounds: the detectors do not throw on it.
pub read_first_question-ne-fault : (payload : Buffer) → read_first_question payload ≢ fault
unfolding read_first_question
read_first_question-ne-fault payload = elim (Bool-cases (ltb (length payload) 13)) [
  | inl short ↦ rw short (ok-ne-fault _)
  | inr long ↦ rw long (
      bind-ne-fault (read_uint16_be payload 4) _
        (read_uint16_be-ne-fault payload 4 (ground (arith, long)))
        (λ count. elim (Bool-cases (nat_beq count 0)) [
          | inl none_asked ↦ rw none_asked (ok-ne-fault _)
          | inr asked ↦ rw asked (
              bind-ne-fault (read_labels 65 payload 12 []) _
                (read_labels-ne-fault 65 payload 12 [] (omega arith) (omega arith))
                (λ labels. ok-ne-fault _))
        ]))
]

-- The labels as they stand in a query.
abbrev pub encode_labels : List Str → Buffer
encode_labels [] = 0 ∷ []
encode_labels (label ∷ labels) = length label ∷ (label ++ encode_labels labels)

abbrev pub IsLabel : Str → Type 0
IsLabel label = (1 ≤ length label) × (length label ≤ 63)

drop-append : (before s : Str) → drop (length before) (before ++ s) ≡ s
drop-append [] s = refl
drop-append (c ∷ before) s = drop-append before s

take-append : (label s : Str) → take (length label) (label ++ s) ≡ label
take-append [] s = refl
take-append (c ∷ label) s = ap (λ x. c ∷ x) (take-append label s)

subarray-append :
    (before label s : Str)
    → subarray (before ++ (label ++ s)) (length before) (length before + length label) ≡ label
unfolding subarray
subarray-append before label s =
    let size : length before + length label - length before ≡ length label = omega arith in
    rw (size, drop-append before (label ++ s)) (take-append label s)

read_uint8-append :
    (before : Str) (c : ℕ) (s : Str) → read_uint8 (before ++ (c ∷ s)) (length before) ≡ ok c
unfolding read_uint8 read_be be_at be_from
read_uint8-append before c s =
    let there : leb (length before + 1) (length (before ++ (c ∷ s))) ≡ true =
      ground (arith, length-append before (c ∷ s)) in
    rw (there, drop-append before (c ∷ s)) (ap ok (omega arith))

subarray-label :
    (before label s : Str) (size : ℕ)
    → subarray
        (before ++ (size ∷ (label ++ s)))
        (length before + 1)
        (length before + 1 + length label)
      ≡ label
subarray-label before label s size =
    ap (λ p. subarray p (length before + 1) (length before + 1 + length label))
      (sym (append_assoc before (size ∷ []) (label ++ s)))
    ∙ ap (λ n. subarray ((before ++ (size ∷ [])) ++ (label ++ s)) n (n + length label))
        (sym (length-append before (size ∷ [])))
    ∙ subarray-append (before ++ (size ∷ [])) label s

-- One label is read, and the reader stands behind it.
read_labels-step :
    (fuel : ℕ) (before label s : Str) (labels : List Str)
    → IsLabel label
    → length labels ≤ 62
    → read_labels (suc fuel) (before ++ (length label ∷ (label ++ s))) (length before) labels
      ≡ read_labels fuel
          (before ++ (length label ∷ (label ++ s)))
          (length before + 1 + length label)
          (labels ++ (label ∷ []))
unfolding read_labels
read_labels-step fuel before label s labels h k =
    let inside : ltb (length before) (length (before ++ (length label ∷ (label ++ s)))) ≡ true =
      ground (arith, length-append before (length label ∷ (label ++ s))) in
    let fits : ltb (length (before ++ (length label ∷ (label ++ s))))
          (length before + 1 + length label)
        ≡ false =
      ground (arith, length-append before (length label ∷ (label ++ s)), length-append label s) in
    rw
      (
        inside,
        read_uint8-append before (length label) (label ++ s),
        subarray-label before label s (length label),
        fits,
      )
      (ground (arith, h, length-append labels (label ∷ [])))

read_labels-end :
    (fuel : ℕ) (before rest : Str) (found : List Str)
    → read_labels (suc fuel) (before ++ (0 ∷ rest)) (length before) found ≡ ok (some found)
unfolding read_labels
read_labels-end fuel before rest found =
    let inside : ltb (length before) (length (before ++ (0 ∷ rest))) ≡ true =
      ground (arith, length-append before (0 ∷ rest)) in
    rw (inside, read_uint8-append before 0 rest) refl

read_labels-encode :
    (fuel : ℕ) (before : Str) (labels found : List Str) (rest : Str)
    → All IsLabel labels
    → length found + length labels ≤ 63
    → length labels < fuel
    → read_labels fuel (before ++ (encode_labels labels ++ rest)) (length before) found
      ≡ ok (some (found ++ labels))
read_labels-encode zero before labels found rest h k l = absurd (omega arith)
read_labels-encode (suc fuel) before [] found rest h k l =
    read_labels-end fuel before rest found ∙ ap (λ l. ok (some l)) (sym (append-nil found))
read_labels-encode (suc fuel) before (label ∷ labels) found rest h k l =
    let size = length label in
    let tail = encode_labels labels ++ rest in
    let behind = before ++ (size ∷ label) in
    let whole : before ++ (encode_labels (label ∷ labels) ++ rest)
        ≡ before ++ (size ∷ (label ++ tail)) =
      ap (λ x. before ++ (size ∷ x)) (append_assoc label (encode_labels labels) rest) in
    let moved : before ++ (size ∷ (label ++ tail)) ≡ behind ++ tail =
      sym (append_assoc before (size ∷ label) tail) in
    let offset : length before + 1 + size ≡ length behind =
      omega (arith, length-append before (size ∷ label)) in
    ap (λ p. read_labels (suc fuel) p (length before) found) whole
    ∙ read_labels-step fuel before label tail found h.0 (omega arith)
    ∙ ap (λ p. read_labels fuel p (length before + 1 + size) (found ++ (label ∷ []))) moved
    ∙ ap (λ n. read_labels fuel (behind ++ tail) n (found ++ (label ∷ []))) offset
    ∙ read_labels-encode fuel behind labels (found ++ (label ∷ [])) rest h.1
        (omega (arith, length-append found (label ∷ []))) (omega arith)
    ∙ ap (λ l. ok (some l)) (append_assoc found (label ∷ []) labels)

read_uint16_be-append :
    (before : Buffer) (hi lo : ℕ) (s : Buffer)
    → read_uint16_be (before ++ (hi ∷ lo ∷ s)) (length before) ≡ ok (hi * 256 + lo)
unfolding read_uint16_be read_be be_at be_from
read_uint16_be-append before hi lo s =
    let there : leb (length before + 2) (length (before ++ (hi ∷ lo ∷ s))) ≡ true =
      ground (arith, length-append before (hi ∷ lo ∷ s)) in
    rw (there, drop-append before (hi ∷ lo ∷ s)) (ap ok (omega arith))

-- A query whose header has a count of questions that is not zero, and whose first question is one to 63
-- labels, each of one to 63 bytes, is read as those labels joined by dots, in lower case, whatever
-- follows the question.
pub read_first_question-encode :
    (id_and_flags : Buffer) (hi lo : ℕ) (counts : Buffer) (label : Str) (labels : List Str)
    (rest : Buffer)
    → length id_and_flags ≡ 4
    → length counts ≡ 6
    → 1 ≤ hi * 256 + lo
    → All IsLabel (label ∷ labels)
    → length labels ≤ 62
    → read_first_question
        (id_and_flags ++ (hi ∷ lo ∷ (counts ++ (encode_labels (label ∷ labels) ++ rest))))
      ≡ ok (some (map lower_latin1 (join (codes ".") (label ∷ labels))))
unfolding read_first_question
read_first_question-encode id_and_flags hi lo counts label labels rest four six asked h k =
    let question = encode_labels (label ∷ labels) ++ rest in
    let payload = id_and_flags ++ (hi ∷ lo ∷ (counts ++ question)) in
    let header = id_and_flags ++ (hi ∷ lo ∷ counts) in
    let long : ltb (length payload) 13 ≡ false = ground (
      arith,
      four,
      six,
      length-append id_and_flags (hi ∷ lo ∷ (counts ++ question)),
      length-append counts question,
      length-append (encode_labels (label ∷ labels)) rest,
    ) in
    let count : read_uint16_be payload 4 ≡ ok (hi * 256 + lo) =
      ap (read_uint16_be payload) (sym four)
      ∙ read_uint16_be-append id_and_flags hi lo (counts ++ question) in
    let some_question : nat_beq (hi * 256 + lo) 0 ≡ false = ground (arith, asked) in
    let split : payload ≡ header ++ question =
      sym (append_assoc id_and_flags (hi ∷ lo ∷ counts) question) in
    let twelve : 12 ≡ length header =
      omega (arith, four, six, length-append id_and_flags (hi ∷ lo ∷ counts)) in
    let found : read_labels 65 payload 12 [] ≡ ok (some (label ∷ labels)) =
      ap (λ p. read_labels 65 p 12 []) split
      ∙ ap (λ n. read_labels 65 (header ++ question) n []) twelve
      ∙ read_labels-encode 65 header (label ∷ labels) [] rest h (omega arith) (omega arith) in
    rw (long, count, some_question, found) refl
