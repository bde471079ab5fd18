-- ===== src/Kafka/Claims.antt =====
-- ConsumeClaim of server/internal/kafka/consumer.go over lists put together.
use fproto.Base.{ℕ, ◌≡◌, refl, ap, sym, ◌∙◌, List, [], ◌∷◌, ◌++◌, Result, ok, err}
use fproto.Kafka.Consumer.{consume_claim, claimed}

module _ {E M W : Type 0} (h : M → W → Result E (Unit {0}) × W) where
  pub claimed-world :
      (o : ℕ) (r : Result E (Unit {0}) × W) (rest : W → W × List ℕ)
      → (claimed h o r rest).0 ≡ (rest r.1).0
  claimed-world o (ok u, w) rest = refl
  claimed-world o (err e, w) rest = refl

  consume_claim-append :
      (xs ys : List (ℕ × M)) (w : W)
      → (consume_claim h (xs ++ ys) w).0 ≡ (consume_claim h ys (consume_claim h xs w).0).0
  unfolding consume_claim
  consume_claim-append [] ys w = refl
  consume_claim-append ((o, m) ∷ xs) ys w =
      claimed-world o (h m w) _
      ∙ consume_claim-append xs ys (h m w).1
      ∙ ap (λ v. (consume_claim h ys v).0) (sym (claimed-world o (h m w) _))

  pub consume_claim-last :
      (xs : List (ℕ × M)) (o : ℕ) (m : M) (w : W)
      → (consume_claim h (xs ++ ((o, m) ∷ [])) w).0 ≡ (h m (consume_claim h xs w).0).1
  unfolding consume_claim
  consume_claim-last xs o m w =
      consume_claim-append xs ((o, m) ∷ []) w ∙ claimed-world o (h m (consume_claim h xs w).0) _
