-- ===== src/Protocol/Telegram/Matching.antt =====
-- The part of `parse_adu` that compares a response with its request.
use dryve_d.Base.{
  ℕ, ◌-◌, ◌≤◌, ◌≡◌, ◌⊎◌, inl, inr, refl, sym, ap, ◌∙◌, true, ◌&&◌, ◌||◌, List, ◌++◌, length,
  length-append, length-replicate, replicate, arith, ◌==◌, ==_iff, ltb, leb, Bool-cases,
  if◌then◌else◌,
}
use dryve_d.Base.Errors.{
  Error, ok, response_mismatch, telegram_format, Ensures, returns, raises, bind-Ensures,
  guard-Ensures, if-Ensures, Ensures-value,
}
use dryve_d.Protocol.Validator.{byte, be16, extract_index_subindex}
use dryve_d.Protocol.Validator.Layout.{get}
use dryve_d.Protocol.Telegram.{
  Telegram, Response, Policy, unit_id_matches, match_read_data, match_request,
}

-- The response is about the object and the unit of the request, and carries its id, but for the
-- two exceptions that the policy makes; and the data of a read fill the width that was asked for.
pub record Answers (policy : Policy) (request : Telegram) (r : Response) : Type 0 where
  pub index : r.index ≡ be16 (get request.adu 12) (get request.adu 13)
  pub subindex : r.subindex ≡ get request.adu 14
  pub unit :
      (r.unit_id ≡ request.unit_id)
      ⊎ (((r.unit_id ≡ 0) ⊎ (r.unit_id ≡ 255)) × (policy.unit_id_wildcard_ok ≡ true))
  pub id : (r.transaction_id ≡ request.transaction_id) ⊎ (policy.tid_mismatch_ok ≡ true)
  pub payload_size :
      (get request.adu 9 ≡ 1)
      ⊎ ((get request.adu 18 ≤ r.byte_count) × (length r.payload ≡ r.byte_count))

-- All of it but the data.
record Matches (policy : Policy) (request : Telegram) (r : Response) : Type 0 where
  index : r.index ≡ be16 (get request.adu 12) (get request.adu 13)
  subindex : r.subindex ≡ get request.adu 14
  unit :
      (r.unit_id ≡ request.unit_id)
      ⊎ (((r.unit_id ≡ 0) ⊎ (r.unit_id ≡ 255)) × (policy.unit_id_wildcard_ok ≡ true))
  id : (r.transaction_id ≡ request.transaction_id) ⊎ (policy.tid_mismatch_ok ≡ true)

abbrev Whatever : Error → Type 0
Whatever e = Unit

-- A byte that was read is the one at its place.
read-Ensures : (adu : List ℕ) (i : ℕ) → Ensures Whatever (λ b. b ≡ get adu i) (byte adu i)
read-Ensures adu i = if-Ensures (ltb i (length adu)) (λ _. returns refl) (λ _. raises tt)

object-Ensures :
    (adu : List ℕ)
    → Ensures Whatever
        (λ o. o ≡ (be16 (get adu 12) (get adu 13), get adu 14))
        (extract_index_subindex adu)
unfolding extract_index_subindex
object-Ensures adu = guard-Ensures (leb 15 (length adu)) telegram_format tt λ l.
    bind-Ensures (read-Ensures adu 12) λ hi p.
      bind-Ensures (read-Ensures adu 13)
        λ lo q. bind-Ensures (read-Ensures adu 14) λ sub r. returns (rw (p, q, r) refl)

length-filled :
    (l : List ℕ) (count n : ℕ)
    → length l ≡ count
    → count ≤ n
    → length (l ++ replicate (n - count) 0) ≡ n
length-filled l count n e h =
    omega
      (arith, e, length-append l (replicate (n - count) 0), length-replicate {A = ℕ} (n - count) 0)

-- Padding the data changes nothing that was compared.
padded :
    (policy : Policy) (resp : Response) (request : Telegram) (n : ℕ)
    → Matches policy request resp
    → get request.adu 18 ≡ n
    → length resp.payload ≡ resp.byte_count
    → Answers policy request (
        if ltb resp.byte_count n
        then record resp {
          byte_count = n;
          payload = resp.payload ++ replicate (n - resp.byte_count) 0;
        }
        else resp)
padded policy resp request n a w l = elim (Bool-cases (ltb resp.byte_count n)) [
  | inl short ↦ rw (short) (record {
    index = a.index;
    subindex = a.subindex;
    unit = a.unit;
    id = a.id;
    payload_size =
        inr (
          omega (arith, w),
          length-filled resp.payload resp.byte_count n l (ground (arith, short)),
        );
  })
  | inr wide ↦ rw (wide) (record {
    index = a.index;
    subindex = a.subindex;
    unit = a.unit;
    id = a.id;
    payload_size = inr (ground (arith, w, wide), l);
  })
]

read_data-Ensures :
    (policy : Policy) (resp : Response) (request : Telegram)
    → Matches policy request resp
    → Ensures Whatever (Answers policy request) (match_read_data resp request)
unfolding match_read_data
read_data-Ensures policy resp request a = bind-Ensures (read-Ensures request.adu 18) λ n q.
    guard-Ensures (length resp.payload == resp.byte_count) response_mismatch tt
      λ l. returns (padded policy resp request n a (sym q) ((==_iff _ _).0 l))

unit_id_matches-lem :
    (policy : Policy) (u v : ℕ)
    → unit_id_matches policy u v ≡ true
    → (u ≡ v) ⊎ (((u ≡ 0) ⊎ (u ≡ 255)) × (policy.unit_id_wildcard_ok ≡ true))
unit_id_matches-lem policy u v h = ground arith

id-lem :
    (policy : Policy) (i j : ℕ)
    → (i == j || policy.tid_mismatch_ok) ≡ true
    → (i ≡ j) ⊎ (policy.tid_mismatch_ok ≡ true)
id-lem policy i j h = ground arith

pair : {i sub : ℕ} {object : ℕ × ℕ} → (i == object.0 && sub == object.1) ≡ true → object ≡ (i, sub)
pair {i = i} {sub = sub} {object = (a, b)} h =
    let p : a ≡ i = ground arith in let q : b ≡ sub = ground arith in cc

request-Ensures :
    (policy : Policy) (resp : Response) (request : Telegram)
    → Ensures Whatever (Answers policy request) (match_request policy resp request)
unfolding match_request
request-Ensures policy resp request =
    guard-Ensures (unit_id_matches policy resp.unit_id request.unit_id) response_mismatch tt λ u.
      bind-Ensures (object-Ensures request.adu) λ object o.
        guard-Ensures (resp.index == object.0 && resp.subindex == object.1) response_mismatch tt
          λ s.
            guard-Ensures (resp.transaction_id == request.transaction_id || policy.tid_mismatch_ok)
              response_mismatch tt
              λ t.
                let same = sym (pair s) ∙ o in
                let a : Matches policy request resp = record {
                  index = ap (λ x. x.0) same;
                  subindex = ap (λ x. x.1) same;
                  unit = unit_id_matches-lem policy resp.unit_id request.unit_id u;
                  id = id-lem policy resp.transaction_id request.transaction_id t;
                } in
                bind-Ensures (read-Ensures request.adu 9) λ c q.
                  if-Ensures (c == 0x01)
                    (λ w. returns (record {
                      index = a.index;
                      subindex = a.subindex;
                      unit = a.unit;
                      id = a.id;
                      payload_size = inl (sym q ∙ (==_iff _ _).0 w);
                    }))
                    (λ _. read_data-Ensures policy resp request a)

-- A response that is accepted for a request names the object in bytes 12 to 14 of the request. Its
-- unit id is the one of the request, or the policy allows wildcards and it is 0 or 255; its
-- transaction id is the one of the request, unless the policy allows another. If the request is not
-- a write, it has as many data bytes as it says, and at least as many as were asked for.
pub match_request-Answers :
    (policy : Policy) (resp : Response) (request : Telegram) (r : Response)
    → match_request policy resp request ≡ ok r
    → Answers policy request r
match_request-Answers policy resp request r h =
    Ensures-value (request-Ensures policy resp request) h
