-- ===== src/Chain/Journal.antt =====
-- Which calls a piece of code makes (tools/pkg/fccutils): every call that it adds to the journal
-- meets a predicate, shown part by part.
use sealed_auction_fce.Prelude.{
  ◌≡◌, refl, sym, ap, ◌∙◌, Bool, true, false, inl, inr, List, [], ◌∷◌, ◌++◌, String, Result, ok,
  Result-cases, All, All-append, if◌then◌else◌, ◌==◌,
}
use sealed_auction_fce.Extension.Types.{Address, Hash, Bytes}
use sealed_auction_fce.Chain.{
  Call, Outside, World, Act, done, stop, lift, andthen, on_error, wrap, perform, check_tx,
  tx_failed, Receipt, wait_mined, Transaction, get_failing_message, transaction_by_hash, replay,
}

pub append_assoc {ℓ} : {A : Type ℓ} (xs ys zs : List A) → (xs ++ ys) ++ zs ≡ xs ++ (ys ++ zs)
append_assoc [] ys zs = refl
append_assoc (x ∷ xs) ys zs = ap (λ t. x ∷ t) (append_assoc xs ys zs)

pub append_nil {ℓ} : {A : Type ℓ} (xs : List A) → xs ++ [] ≡ xs
append_nil [] = refl
append_nil (x ∷ xs) = ap (λ t. x ∷ t) (append_nil xs)

-- From one world to a later one, every call made meets the predicate.
abbrev pub Added : (Call → Type 0) → World → World → Type 0
Added P w w' = (cs : List Call) × (w'.journal ≡ w.journal ++ cs) × All P cs

-- Whatever the world, every call that the code makes meets the predicate.
abbrev pub Only {ℓ} : {A : Type ℓ} → (Call → Type 0) → Act A → Type 0
Only P m = (w : World) → Added P w (m w).1

All-weaken :
    (P Q : Call → Type 0) → ((c : Call) → P c → Q c) → (cs : List Call) → All P cs → All Q cs
All-weaken P Q f [] all = tt
All-weaken P Q f (c ∷ cs) (p, all) = (f c p, All-weaken P Q f cs all)

pub Added-weaken :
    (P Q : Call → Type 0) (w w' : World) → ((c : Call) → P c → Q c) → Added P w w' → Added Q w w'
Added-weaken P Q w w' f (cs, e, all) = (cs, e, All-weaken P Q f cs all)

module _ (P : Call → Type 0) where
  pub Added-none : (w : World) → Added P w w
  Added-none w = ([], sym (append_nil w.journal), tt)

  pub Added-trans : (u v w : World) → Added P u v → Added P v w → Added P u w
  Added-trans u v w (cs, e, all) (ds, f, more) = (
    cs ++ ds,
    f ∙ ap (λ t. t ++ ds) e ∙ append_assoc u.journal cs ds,
    All-append P cs ds all more,
  )

  pub stop-Only {ℓ} : (A : Type ℓ) (e : String) → Only P (stop {A = A} e)
  stop-Only A e w = Added-none w

  module _ {ℓ} {A : Type ℓ} where
    pub done-Only : (a : A) → Only P (done a)
    done-Only a w = Added-none w

    pub lift-Only : (r : Result A) → Only P (lift r)
    lift-Only r w = Added-none w

    pub wrap-Only : (f : String → String) (m : Act A) → Only P m → Only P (wrap f m)
    unfolding wrap
    wrap-Only f m h w = h w

    pub if-Only : (b : Bool) (m n : Act A) → Only P m → Only P n → Only P (if b then m else n)
    if-Only true m n h k = h
    if-Only false m n h k = k

    module _ {κ} {B : Type κ} where
      pub andthen-Only :
          (m : Act A) (f : A → Act B) → Only P m → ((a : A) → Only P (f a)) → Only P (andthen m f)
      unfolding andthen
      andthen-Only m f h k w = elim (Result-cases (m w).0) [
        | inl (a, e) ↦ rw (e, andthen) (Added-trans w (m w).1 (f a (m w).1).1 (h w) (k a (m w).1))
        | inr (t, e) ↦ rw (e, andthen) (h w)
      ]

      pub on_error-Only :
          (m : Act A) (g : String → Act B) (f : A → Act B)
          → Only P m
          → ((e : String) → Only P (g e))
          → ((a : A) → Only P (f a))
          → Only P (on_error m g f)
      unfolding on_error
      on_error-Only m g f h i k w = elim (Result-cases (m w).0) [
        | inl (a, e) ↦ rw (e, on_error) (Added-trans w (m w).1 (f a (m w).1).1 (h w) (k a (m w).1))
        | inr (t, e) ↦ rw (e, on_error) (Added-trans w (m w).1 (g t (m w).1).1 (h w) (i t (m w).1))
      ]

  -- At one world: the rest of the code may use what the first part returned there.
  pub andthen-Added {ℓ κ} :
      {A : Type ℓ} {B : Type κ} (m : Act A) (f : A → Act B) (w : World)
      → Added P w (m w).1
      → ((a : A) → (m w).0 ≡ ok a → Added P (m w).1 (f a (m w).1).1)
      → Added P w (andthen m f w).1
  unfolding andthen
  andthen-Added m f w h k = elim (Result-cases (m w).0) [
    | inl (a, e) ↦ rw (e, andthen) (Added-trans w (m w).1 (f a (m w).1).1 h (k a e))
    | inr (t, e) ↦ rw (e, andthen) h
  ]

  pub on_error-Added {ℓ κ} :
      {A : Type ℓ} {B : Type κ} (m : Act A) (g : String → Act B) (f : A → Act B) (w : World)
      → Added P w (m w).1
      → ((e : String) → Added P (m w).1 (g e (m w).1).1)
      → ((a : A) → (m w).0 ≡ ok a → Added P (m w).1 (f a (m w).1).1)
      → Added P w (on_error m g f w).1
  unfolding on_error
  on_error-Added m g f w h i k = elim (Result-cases (m w).0) [
    | inl (a, e) ↦ rw (e, on_error) (Added-trans w (m w).1 (f a (m w).1).1 h (k a e))
    | inr (t, e) ↦ rw (e, on_error) (Added-trans w (m w).1 (g t (m w).1).1 h (i t))
  ]

  module _ (out : Outside) where
    pub perform-Only : (c : Call) → P c → Only P (perform out c)
    unfolding perform
    perform-Only c p w = (c ∷ [], refl, (p, tt))

    get_failing_message-Only :
        (tx : Hash)
        → P (transaction_by_hash tx)
        → ((from : Address) (content : Bytes) → P (replay from content))
        → Only P (get_failing_message out tx)
    unfolding get_failing_message
    get_failing_message-Only tx q r =
        andthen-Only _ _ (perform-Only (transaction_by_hash tx) q) (λ (t : Transaction).
          andthen-Only _ _ (lift-Only t.sender) (λ from.
            on_error-Only _ _ _ (perform-Only (replay from t.content) (r from t.content))
              (λ e w. Added-none w) (λ res w. Added-none w)))

    pub check_tx-Only :
        (tx : Hash)
        → P (wait_mined tx)
        → P (transaction_by_hash tx)
        → ((from : Address) (content : Bytes) → P (replay from content))
        → Only P (check_tx out tx)
    unfolding check_tx tx_failed
    check_tx-Only tx p q r =
        andthen-Only _ _ (wrap-Only _ _ (perform-Only (wait_mined tx) p)) (λ (receipt : Receipt).
          if-Only (receipt.status == 0) _ _
            (andthen-Only _ _ (get_failing_message-Only tx q r) (λ reason w. Added-none w))
            (λ w. Added-none w))
