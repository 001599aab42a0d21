-- ===== src/Registration/Polling.antt =====
-- The polling of a result (`ActionResult`, tools/pkg/fccutils/tee_calls.go).
use Prim.Native.String.{◌++◌ as append}
use sealed_auction_fce.Prelude.{
  ℕ, zero, suc, ◌+◌, ◌≤◌, ◌≡◌, Bool, true, false, inl, inr, List, [], ◌∷◌, ◌++◌, String, Result, ok,
  err, if◌then◌else◌, Bool-cases, Result-cases, arith, ◌==◌,
}
use sealed_auction_fce.Extension.Types.{Hash}
use sealed_auction_fce.Chain.{
  Call, Outside, World, Act, HttpReply, on_error, andthen, perform, http_get, sleep,
}
use sealed_auction_fce.Registration.{Library, try}
use sealed_auction_fce.Registration.Production.{poll, action_result, repeats}

abbrev pub is_get : Call → Bool
is_get (Call.http_get url) = true
is_get _ = false

-- The GET requests among the calls.
abbrev pub count_gets : List Call → ℕ
count_gets [] = 0
count_gets (c ∷ cs) = (if is_get c then 1 else 0) + count_gets cs

count_gets-append : (xs ys : List Call) → count_gets (xs ++ ys) ≡ count_gets xs + count_gets ys
count_gets-append [] ys = omega arith
count_gets-append (c ∷ xs) ys = omega (arith, count_gets-append xs ys)

module _ (lib : Library) (out : Outside) where
  pub gets_perform :
      (c : Call) (w : World)
      → count_gets (perform out c w).1.journal ≡ count_gets w.journal + (if is_get c then 1 else 0)
  unfolding perform
  gets_perform c w = omega (arith, count_gets-append w.journal (c ∷ []))

  -- The sleep after a failed attempt is no request.
  after_sleep :
      (m : Act (Result HttpReply)) (w : World) (n : ℕ)
      → ((v : World) → count_gets (m v).1.journal ≤ count_gets v.journal + n)
      → count_gets (try lib out (perform out (sleep 2)) m w).1.journal ≤ count_gets w.journal + n
  unfolding on_error
  after_sleep m w n h = elim (Result-cases (perform out (sleep 2) w).0) [
    | inl (u, e) ↦
        rw (e, on_error) (omega (arith, h (perform out (sleep 2) w).1, gets_perform (sleep 2) w))
    | inr (t, e) ↦
        rw (e, on_error) (omega (arith, h (perform out (sleep 2) w).1, gets_perform (sleep 2) w))
  ]

  count_gets-poll :
      (n : ℕ) (url : String) (last : Result HttpReply) (w : World)
      → count_gets (poll lib out n url last w).1.journal ≤ count_gets w.journal + n
  unfolding poll on_error
  count_gets-poll zero url last w = omega arith
  count_gets-poll (suc n) url last w =
      let v = (perform out (http_get url) w).1 in
      let one = gets_perform (http_get url) w in
      elim (Result-cases (perform out (http_get url) w).0) [
        | inr (t, e) ↦
            rw (e, poll, on_error)
              (omega (
                arith,
                one,
                after_sleep (poll lib out n url (err t)) v n (count_gets-poll n url (err t)),
              ))
        | inl (reply, e) ↦ elim (Bool-cases (reply.status_code == 200)) [
          | inl fine ↦ rw (e, poll, on_error, fine) (omega (arith, one))
          | inr other ↦
              rw (e, poll, on_error, other)
                (omega (
                  arith,
                  one,
                  after_sleep (poll lib out n url (ok reply)) v n
                      (count_gets-poll n url (ok reply)),
                ))
        ]
      ]

  -- `ActionResult` ends after at most 15 GET requests, whatever is answered.
  pub count_gets-action_result :
      (url : String) (id : Hash) (w : World)
      → count_gets (action_result lib out url id w).1.journal ≤ count_gets w.journal + repeats
  unfolding action_result andthen
  count_gets-action_result url id w =
      let address = append url (append "/action/result/" (lib.hash_hex id)) in
      let start : Result HttpReply = err "no request was made" in
      let polled = count_gets-poll repeats address start w in
      elim (Result-cases (poll lib out repeats address start w).0) [
        | inl (last, e) ↦ rw (e, andthen) polled
        | inr (t, e) ↦ rw (e, andthen) polled
      ]
