-- ===== src/Kube/Shared.antt =====
-- The server as one program meets it beside another one: what that one does comes in between.
use netmaker_k8s_ops.Base.{
  ◌≡◌, ◌≢◌, refl, sym, ap, ◌∙◌, Bool, true, false, Option, none, some, List, [], ◌∷◌, if◌then◌else◌,
  Bool-cases, inl, inr,
}
use netmaker_k8s_ops.Kube.{Key, Pod}
use netmaker_k8s_ops.Kube.Client.{
  Call, Response, ok, err, GoError, is_not_found, Prog, ret, panic, ask, Client, get_pod,
  create_pod, delete_pod,
}
use netmaker_k8s_ops.Kube.Calls.{Answers, IsFaithful, Anything, Always}
use netmaker_k8s_ops.Kube.Beside.{Turn, mine, theirs, advance, is_own, refusal, refusal-Answers}
use netmaker_k8s_ops.Kube.Cluster.{Pods, Services, Elsewhere, Creates, key_of_pod}

module _ (C : Client) (faithful : IsFaithful C) (P : Pods C) (V : Services C)
    (own : Key → Bool) where
  module _ {B : Type 0} where
    abbrev pub IsAside : Prog B → Type 0
    IsAside = Always (λ c. (j : Key) → own j ≡ true → Elsewhere j c) Anything

    pub advance-IsAside : (h : Prog B) (s : C.State) → IsAside h → IsAside (advance C h s).0
    advance-IsAside (ret a) s aside = tt
    advance-IsAside (panic m) s aside = tt
    advance-IsAside (ask c k) s (p, rest) = rest _ (faithful c s)

    pub advance-pods :
        (h : Prog B) (s : C.State) (j : Key)
        → IsAside h
        → own j ≡ true
        → P.pods (advance C h s).1 j ≡ P.pods s j
    advance-pods (ret a) s j aside mine_own = refl
    advance-pods (panic m) s j aside mine_own = refl
    advance-pods (ask c k) s j (p, rest) mine_own = P.frame c s j (p j mine_own)

    advance-unmarked :
        (h : Prog B) (s : C.State) (j : Key)
        → IsAside h
        → own j ≡ true
        → P.terminating s j ≡ false
        → P.terminating (advance C h s).1 j ≡ false
    advance-unmarked (ret a) s j aside same unmarked = unmarked
    advance-unmarked (panic m) s j aside same unmarked = unmarked
    advance-unmarked (ask c k) s j (p, rest) same unmarked = P.unmarked c s j (p j same) unmarked

    pub advance-services : (h : Prog B) (s : C.State) → V.services (advance C h s).1 ≡ V.services s
    advance-services (ret a) s = refl
    advance-services (panic m) s = refl
    advance-services (ask c k) s = V.kept c s

  module _ (B : Type 0) where
    -- The server as the first program meets it: before each call the second one has its turns. Only
    -- the pods of `own` are kept, and of no other pod a call is answered.
    pub record Shared : Type 0 where
      pub here : C.State
      pub others : Prog B
      pub aside : IsAside others
      pub turns : List Turn

    abbrev pub wait : List Turn → (h : Prog B) → IsAside h → C.State → Shared
    wait [] h aside s = record { here = s; others = h; aside = aside; turns = [] }
    wait (mine ∷ turns) h aside s = record { here = s; others = h; aside = aside; turns = turns }
    wait (theirs ∷ turns) h aside s =
        wait turns (advance C h s).0 (advance-IsAside h s aside) (advance C h s).1

    wait-pods :
        (turns : List Turn) (h : Prog B) (aside : IsAside h) (s : C.State) (j : Key)
        → own j ≡ true
        → P.pods (wait turns h aside s).here j ≡ P.pods s j
    wait-pods [] h aside s j same = refl
    wait-pods (mine ∷ turns) h aside s j same = refl
    wait-pods (theirs ∷ turns) h aside s j same =
        wait-pods turns _ (advance-IsAside h s aside) (advance C h s).1 j same
        ∙ advance-pods h s j aside same

    wait-unmarked :
        (turns : List Turn) (h : Prog B) (aside : IsAside h) (s : C.State) (j : Key)
        → own j ≡ true
        → P.terminating s j ≡ false
        → P.terminating (wait turns h aside s).here j ≡ false
    wait-unmarked [] h aside s j same unmarked = unmarked
    wait-unmarked (mine ∷ turns) h aside s j same unmarked = unmarked
    wait-unmarked (theirs ∷ turns) h aside s j same unmarked =
        wait-unmarked turns _ (advance-IsAside h s aside) (advance C h s).1 j same
          (advance-unmarked h s j aside same unmarked)

    pub wait-services :
        (turns : List Turn) (h : Prog B) (aside : IsAside h) (s : C.State)
        → V.services (wait turns h aside s).here ≡ V.services s
    wait-services [] h aside s = refl
    wait-services (mine ∷ turns) h aside s = refl
    wait-services (theirs ∷ turns) h aside s =
        wait-services turns _ (advance-IsAside h s aside) (advance C h s).1 ∙ advance-services h s

    abbrev pub ready : Shared → Shared
    ready x = wait x.turns x.others x.aside x.here

    abbrev pub serve_own : (c : Call) → Bool → Shared → Response c × Shared
    serve_own c true x =
        ((C.serve c (ready x).here).0, record (ready x) { here = (C.serve c (ready x).here).1 })
    serve_own c false x = (refusal c, x)

    abbrev pub shared : Client
    shared = record { State = Shared; serve = λ c x. serve_own c (is_own own c) x }

    answered-IsFaithful : (c : Call) (b : Bool) (x : Shared) → Answers c (serve_own c b x).0
    answered-IsFaithful c true x = faithful c (ready x).here
    answered-IsFaithful c false x = refusal-Answers c

    pub shared-IsFaithful : IsFaithful shared
    shared-IsFaithful c x = answered-IsFaithful c (is_own own c) x

    ready-pods : (x : Shared) (j : Key) → own j ≡ true → P.pods (ready x).here j ≡ P.pods x.here j
    ready-pods x = wait-pods x.turns x.others x.aside x.here

    served-frame :
        (c : Call) (b : Bool) (x : Shared) (j : Key)
        → own j ≡ true
        → Elsewhere j c
        → P.pods (serve_own c b x).1.here j ≡ P.pods x.here j
    served-frame c true x j same away = P.frame c (ready x).here j away ∙ ready-pods x j same
    served-frame c false x j same away = refl

    pub served-services :
        (c : Call) (b : Bool) (x : Shared) → V.services (serve_own c b x).1.here ≡ V.services x.here
    served-services c true x =
        V.kept c (ready x).here ∙ wait-services x.turns x.others x.aside x.here
    served-services c false x = refl

    ready-unmarked :
        (x : Shared) (j : Key)
        → own j ≡ true
        → P.terminating x.here j ≡ false
        → P.terminating (ready x).here j ≡ false
    ready-unmarked x = wait-unmarked x.turns x.others x.aside x.here

    served-unmarked :
        (c : Call) (b : Bool) (x : Shared) (j : Key)
        → own j ≡ true
        → Elsewhere j c
        → P.terminating x.here j ≡ false
        → P.terminating (serve_own c b x).1.here j ≡ false
    served-unmarked c true x j same away unmarked =
        P.unmarked c (ready x).here j away (ready-unmarked x j same unmarked)
    served-unmarked c false x j same away unmarked = unmarked

    served-not_made :
        (c : Call) (b : Bool) (x : Shared) (j : Key)
        → own j ≡ true
        → Creates (λ _. ⊥) c
        → P.pods x.here j ≡ none
        → P.pods (serve_own c b x).1.here j ≡ none
    served-not_made c true x j same made gone =
        P.not_made c (ready x).here j made (ready-pods x j same ∙ gone)
    served-not_made c false x j same made gone = gone

    abbrev pub terminating_shared : Shared → Key → Bool
    terminating_shared x j = if own j then P.terminating x.here j else false

    abbrev pub pods_shared : Shared → Key → Option Pod
    pods_shared x j = if own j then P.pods x.here j else none

    pub shared-alone :
        (j : Key) (x : Shared) → pods_shared x j ≢ none → terminating_shared x j ≡ false
    shared-alone j x there = elim (Bool-cases (own j)) [
      | inl same ↦ rw same (P.alone j x.here (rw same at there))
      | inr away ↦ rw away refl
    ]

    pub shared-unmarked :
        (c : Call) (x : Shared) (j : Key)
        → Elsewhere j c
        → terminating_shared x j ≡ false
        → terminating_shared (shared.serve c x).1 j ≡ false
    shared-unmarked c x j away unmarked = elim (Bool-cases (own j)) [
      | inl same ↦ rw same (served-unmarked c (is_own own c) x j same away (rw same at unmarked))
      | inr other_key ↦ rw other_key refl
    ]

    pub shared-not_made :
        (c : Call) (x : Shared) (j : Key)
        → Creates (λ _. ⊥) c
        → pods_shared x j ≡ none
        → pods_shared (shared.serve c x).1 j ≡ none
    shared-not_made c x j made gone = elim (Bool-cases (own j)) [
      | inl same ↦ rw same (served-not_made c (is_own own c) x j same made (rw same at gone))
      | inr other_key ↦ rw other_key refl
    ]

    pub shared-found :
        (k : Key) (b : Bool) (x : Shared) (p : Pod)
        → own k ≡ b
        → terminating_shared x k ≡ false
        → (serve_own (get_pod k) b x).0 ≡ ok p
        → pods_shared x k ≡ some p
    shared-found k true x p same unmarked e = rw same (
        sym (ready-pods x k same)
        ∙ P.found k (ready x).here p (ready-unmarked x k same (rw same at unmarked)) e)
    shared-found k false x p away unmarked e = absurd cc

    pub shared-missing :
        (k : Key) (b : Bool) (x : Shared) (m : GoError)
        → own k ≡ b
        → (serve_own (get_pod k) b x).0 ≡ err m
        → is_not_found m ≡ true
        → pods_shared x k ≡ none
    shared-missing k true x m same e gone =
        rw same (sym (ready-pods x k same) ∙ P.missing k (ready x).here m e gone)
    shared-missing k false x m away e gone = rw away refl

    pub shared-frame :
        (c : Call) (x : Shared) (j : Key)
        → Elsewhere j c
        → pods_shared (shared.serve c x).1 j ≡ pods_shared x j
    shared-frame c x j away = elim (Bool-cases (own j)) [
      | inl same ↦ rw same (served-frame c (is_own own c) x j same away)
      | inr other_key ↦ rw other_key refl
    ]

    pub shared-created :
        (p : Pod) (b : Bool) (x : Shared)
        → own (key_of_pod p) ≡ b
        → (serve_own (create_pod p) b x).0 ≡ none
        → pods_shared (serve_own (create_pod p) b x).1 (key_of_pod p) ≢ none
    shared-created p true x same e = rw same (P.created p (ready x).here e)
    shared-created p false x away e = absurd cc

    pub shared-deleted :
        (p : Pod) (x : Shared)
        → (shared.serve (delete_pod p) x).0 ≡ none
        → pods_shared (shared.serve (delete_pod p) x).1 (key_of_pod p) ≡ none
    shared-deleted p x e = elim (Bool-cases (own (key_of_pod p))) [
      | inl same ↦ rw same (P.deleted p (ready x).here e)
      | inr away ↦ rw away refl
    ]

    abbrev pub shared_pods : Pods shared
    shared_pods = record {
      pods = pods_shared;
      terminating = terminating_shared;
      alone = shared-alone;
      found = λ k x p unmarked e. shared-found k (own k) x p refl unmarked e;
      missing = λ k x m e gone. shared-missing k (own k) x m refl e gone;
      frame = shared-frame;
      unmarked = shared-unmarked;
      not_made = shared-not_made;
      created = λ p x e. shared-created p (own (key_of_pod p)) x refl e;
      deleted = shared-deleted;
    }

    abbrev pub shared_services : Services shared
    shared_services = record {
      services = λ x. V.services x.here;
      read = λ k x s e.
          sym (ap (λ f. f k) (wait-services x.turns x.others x.aside x.here))
          ∙ V.read k (ready x).here s e;
      unread = λ k x m e gone.
          sym (ap (λ f. f k) (wait-services x.turns x.others x.aside x.here))
          ∙ V.unread k (ready x).here m e gone;
      kept = λ c x. served-services c (is_own own c) x;
    }
