-- ===== src/Kube/Answers.antt =====
-- Calls that answer, and the rules for actions that make them.
use x_cluster_link.Base.{◌≡◌, sym, subst, ◌∷◌, Option, some}
use x_cluster_link.Kube.Calls.{Kube, Call, answer}
use x_cluster_link.Kube.Monad.{Effect, did, World, or_panic, read, request}
use x_cluster_link.Kube.Steps.{read-answer, request-answer, or_panic-some}
use x_cluster_link.Kube.Post.{Post}

-- The call answers in every state.
abbrev pub Answers : {S E A : Type 0} → Call S E A → Type 0
Answers {S} {E} {A} call = (s : S) → (a : A) × (s' : S) × (call s ≡ (answer a, s'))

-- The call answers with `a` in every state.
abbrev pub AnswersWith : {S E A : Type 0} → A → Call S E A → Type 0
AnswersWith {S} {E} {A} a call = (s : S) → (s' : S) × (call s ≡ (answer a, s'))

module _ {K : Kube} {A : Type 0} {Q : A → World K → Type 0} {F : World K → Type 0} where
  pub Post-read_answered :
      (call : Call K.State K.Err A) (w : World K) (a : A)
      → AnswersWith a call
      → ((w' : World K) → Q a w')
      → Post Q F (read call w)
  Post-read_answered call w a h q =
      let (s, e) = h w.state in
      subst (Post Q F) (sym (read-answer call w e)) (record { at = q (record w { state = s }) })

  pub Post-request_answered :
      (c : Effect) (call : Call K.State K.Err A) (w : World K)
      → Answers call
      → ((a : A) (w' : World K) → Q a w')
      → Post Q F (request c call w)
  Post-request_answered c call w h q =
      let (a, s, e) = h w.state in
      subst (Post Q F) (sym (request-answer c call w e))
        (record { at = q a (record { state = s; log = did c ∷ w.log }) })

  pub Post-request_answered_with :
      (c : Effect) (call : Call K.State K.Err A) (w : World K) (a : A)
      → AnswersWith a call
      → ((w' : World K) → Q a w')
      → Post Q F (request c call w)
  Post-request_answered_with c call w a h q =
      let (s, e) = h w.state in
      subst (Post Q F) (sym (request-answer c call w e))
        (record { at = q (record { state = s; log = did c ∷ w.log }) })

  pub Post-or_panic_given :
      (o : Option A) (w : World K) (a : A) → o ≡ some a → Q a w → Post Q F (or_panic o w)
  Post-or_panic_given o w a e q = subst (Post Q F) (sym (or_panic-some o w e)) (record { at = q })
