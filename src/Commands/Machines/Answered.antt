-- ===== src/Commands/Machines/Answered.antt =====
-- What the tools pause when their calls are answered (tools/cmd/reconcile-tee/main.go): the
-- machines of the pauses among the calls, shown part by part.

use sealed_auction_fce.Prelude.{
  ◌≡◌, refl, sym, ap, ◌∙◌, List, [], ◌∷◌, ◌++◌, map_err, Result, String, ok,
}
use sealed_auction_fce.Extension.Types.{Address}
use sealed_auction_fce.Chain.{
  Call, Answer, lift, done, Tx, Outside, World, Act, perform, andthen, on_error, wrap,
}
use sealed_auction_fce.Chain.Journal.{append_assoc, append_nil}
use sealed_auction_fce.Chain.Returned.{andthen_run, on_error_run}

abbrev pub paused_by : Call → List Address
paused_by (Call.send signer value (Tx.pause_machine tee)) = tee ∷ []
paused_by _ = []

-- The machines that the calls pause, in their order.
abbrev pub pauses : List Call → List Address
pauses [] = []
pauses (c ∷ cs) = paused_by c ++ pauses cs

pauses-append : (xs ys : List Call) → pauses (xs ++ ys) ≡ pauses xs ++ pauses ys
pauses-append [] ys = refl
pauses-append (c ∷ xs) ys =
    ap (λ t. paused_by c ++ t) (pauses-append xs ys)
    ∙ sym (append_assoc (paused_by c) (pauses xs) (pauses ys))

module _ (out : Outside) where
  -- The code returns the value, and the calls that it adds pause these machines.
  abbrev pub RunsTo : {A : Type 0} → Act A → World → A → List Address → Type 0
  RunsTo act w a tees =
      (v : World) × (act w ≡ (ok a, v)) × (pauses v.journal ≡ pauses w.journal ++ tees)

  pub RunsTo-done : {A : Type 0} (a : A) (w : World) → RunsTo (done a) w a []
  RunsTo-done a w = (w, refl, sym (append_nil (pauses w.journal)))

  pub RunsTo-andthen :
      {A B : Type 0} (m : Act A) (f : A → Act B) (w : World) (a : A) (b : B)
      (tees more : List Address)
      → RunsTo m w a tees
      → ((v : World) → RunsTo (f a) v b more)
      → RunsTo (andthen m f) w b (tees ++ more)
  RunsTo-andthen m f w a b tees more (v, e, added) rest =
      let (u, e2, added2) = rest v in
      (
        u,
        andthen_run m f w v a e ∙ e2,
        added2 ∙ ap (λ t. t ++ more) added ∙ append_assoc (pauses w.journal) tees more,
      )

  pub RunsTo-on_error :
      {A B : Type 0} (m : Act A) (g : String → Act B) (f : A → Act B) (w : World) (a : A) (b : B)
      (tees more : List Address)
      → RunsTo m w a tees
      → ((v : World) → RunsTo (f a) v b more)
      → RunsTo (on_error m g f) w b (tees ++ more)
  RunsTo-on_error m g f w a b tees more (v, e, added) rest =
      let (u, e2, added2) = rest v in
      (
        u,
        on_error_run m g f w v a e ∙ e2,
        added2 ∙ ap (λ t. t ++ more) added ∙ append_assoc (pauses w.journal) tees more,
      )

  pub RunsTo-perform :
      (c : Call) (w : World) (a : Answer c)
      → out.answer w.journal c ≡ ok a
      → RunsTo (perform out c) w a (paused_by c)
  unfolding perform
  RunsTo-perform c w a answered = (
    (perform out c w).1,
    ap (λ r. (r, (perform out c w).1)) answered,
    pauses-append w.journal (c ∷ []) ∙ ap (λ t. pauses w.journal ++ t) (append_nil (paused_by c)),
  )

  pub RunsTo-wrap :
      {A : Type 0} (g : String → String) (m : Act A) (w : World) (a : A) (tees : List Address)
      → RunsTo m w a tees
      → RunsTo (wrap g m) w a tees
  unfolding wrap
  RunsTo-wrap {A = A} g m w a tees (v, e, added) =
      (v, ap (λ (r : Result A × World). (map_err g r.0, r.1)) e, added)

  pub RunsTo-lift :
      {A : Type 0} (r : Result A) (w : World) (a : A) → r ≡ ok a → RunsTo (lift r) w a []
  RunsTo-lift r w a e = (w, ap (λ t. (t, w)) e, sym (append_nil (pauses w.journal)))
