-- ===== src/Kube/Race.antt =====
-- What a program comes to beside another one, by a run of it alone on the server that the two share.
use netmaker_k8s_ops.Base.{◌≡◌, refl, ◌∙◌, sym, subst, Bool, List, [], ◌∷◌, true}
use netmaker_k8s_ops.Kube.{Key}
use netmaker_k8s_ops.Kube.Client.{
  Call, Response, Outcome, Prog, ret, panic, ask, Client, returned, run,
}
use netmaker_k8s_ops.Kube.Calls.{IsFaithful, Anything, Always}
use netmaker_k8s_ops.Kube.Cluster.{Pods, Services}
use netmaker_k8s_ops.Kube.Beside.{Turn, mine, theirs, race, advance, is_own}
use netmaker_k8s_ops.Kube.Shared.{
  IsAside, Shared, shared, serve_own, advance-IsAside, advance-pods, advance-services,
}

module _ (C : Client) (faithful : IsFaithful C) (P : Pods C) (V : Services C) (own : Key → Bool)
    (A B : Type 0) where
  abbrev Own : Prog A → Type 0
  Own = Always (λ c. is_own own c ≡ true) Anything

  abbrev together : List Turn → Prog A → Prog B → C.State → Prog A × Prog B × C.State
  together = race C

  abbrev alone : Client
  alone = shared C faithful P V own B

  -- The run returns `a`, and leaves the pod and the services that are in `t`.
  abbrev pub Agrees : C.State → A → Outcome A × Shared C faithful P V own B → Type 0
  Agrees t a o =
      (o.0 ≡ returned a)
      × ((j : Key) → own j ≡ true → P.pods t j ≡ P.pods o.1.here j)
      × (V.services t ≡ V.services o.1.here)

  abbrev pub Matches :
      List Turn → (m : Prog A) (h : Prog B) → IsAside C faithful P V own h → C.State → A → Type 0
  Matches turns m h aside s a =
      let x : Shared C faithful P V own B = record {
        here = s;
        others = h;
        aside = aside;
        turns = turns;
      } in
      Agrees (together turns m h s).2 a (run alone m x)

  -- A call that is answered.
  abbrev served :
      (c : Call)
      → (Response c → Prog A)
      → Shared C faithful P V own B
      → Bool
      → Outcome A × Shared C faithful P V own B
  served c k x b = let (r, y) = serve_own C faithful P V own B c b x in run alone (k r) y

  pub race-Matches :
      (turns : List Turn) (m : Prog A) (h : Prog B) (aside : IsAside C faithful P V own h)
      (s : C.State) (a : A)
      → Own m
      → (together turns m h s).0 ≡ ret a
      → Matches turns m h aside s a
  race-Matches [] (ret b) h aside s a q e = (cc, λ j same. refl, refl)
  race-Matches [] (panic m) h aside s a q e = absurd cc
  race-Matches [] (ask c k) h aside s a q e = absurd cc
  race-Matches (mine ∷ turns) (ret b) h aside s a q e = race-Matches turns (ret b) h aside s a q e
  race-Matches (mine ∷ turns) (panic m) h aside s a q e =
      race-Matches turns (panic m) h aside s a q e
  race-Matches (mine ∷ turns) (ask c k) h aside s a (p, q) e =
      let x : Shared C faithful P V own B = record {
        here = s;
        others = h;
        aside = aside;
        turns = mine ∷ turns;
      } in
      subst (λ b. Agrees (together (mine ∷ turns) (ask c k) h s).2 a (served c k x b)) (sym p)
        (race-Matches turns (k (C.serve c s).0) h aside (C.serve c s).1 a (q _ (faithful c s)) e)
  race-Matches (theirs ∷ turns) (ret b) h aside s a q e =
      let (done, pods, services) =
        race-Matches turns (ret b) (advance C h s).0 (advance-IsAside C faithful P V own h s aside)
          (advance C h s).1 a q e in
      (
        done,
        λ j same. pods j same ∙ advance-pods C faithful P V own h s j aside same,
        services ∙ advance-services C faithful P V own h s,
      )
  race-Matches (theirs ∷ turns) (panic m) h aside s a q e = absurd cc (
      (race-Matches turns (panic m) (advance C h s).0 (advance-IsAside C faithful P V own h s aside)
        (advance C h s).1 a q e).0)
  race-Matches (theirs ∷ turns) (ask c k) h aside s a (p, q) e =
      let stirred = advance-IsAside C faithful P V own h s aside in
      let x : Shared C faithful P V own B = record {
        here = s;
        others = h;
        aside = aside;
        turns = theirs ∷ turns;
      } in
      let y : Shared C faithful P V own B = record {
        here = (advance C h s).1;
        others = (advance C h s).0;
        aside = stirred;
        turns = turns;
      } in
      let t = (together turns (ask c k) (advance C h s).0 (advance C h s).1).2 in
      subst (λ b. Agrees t a (served c k x b)) (sym p)
        (subst (λ b. Agrees t a (served c k y b)) p
          (race-Matches turns (ask c k) (advance C h s).0 stirred (advance C h s).1 a (p, q) e))
