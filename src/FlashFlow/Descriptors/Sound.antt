-- ===== src/FlashFlow/Descriptors/Sound.antt =====
-- flashflow.c: between two rounds every connection has a descriptor of its own, and none is watched.
use flashflow_research.Prelude.{
  ◌≡◌, ◌≢◌, Option, inl, inr, refl, sym, subst, List, [], ◌∷◌, ok, ◌>>=◌, Ensures, Ensures-bind,
  All-map, Bool-cases, arith,
}
use flashflow_research.Prelude.Int.{ℤ}
use flashflow_research.Os.{Os}
use flashflow_research.FlashFlow.Loop.{
  Loop, Next, next_item, same_index, main_loop_end, return_error,
}
use flashflow_research.FlashFlow.Poll.{Polled}
use flashflow_research.FlashFlow.Rounds.{
  collect_fds, all_fds, epoll_add_all, epoll_delete_all, prepare_round, after_wait, poll_clients,
  main_loop_round,
}
use flashflow_research.FlashFlow.Descriptors.{Kernel, KernelWorks, Calm, Keeps}
use flashflow_research.FlashFlow.Descriptors.Failing.{KeptNext}
use flashflow_research.FlashFlow.Descriptors.Turn.{prepare_round-Keeps}
use flashflow_research.FlashFlow.Descriptors.Answers.{after_wait-Keeps}
use flashflow_research.FlashFlow.Descriptors.Watched.{
  Sound, not_both, Keeps-Sound, Sound-LeadBack, epoll_add_all_stays, epoll_add_all_watched,
  epoll_delete_all-Calm, epoll_delete_all_watched,
}

module _ (os : Os) (k : Kernel os) (works : KernelWorks os k) where
  open os use {World, Stream, epoll_wait}

  -- With nothing watched before, the wait reports what was added.
  pub Sound-Polled : (s : Loop) (w : World) → Sound os k s.metas w → Polled os s w
  Sound-Polled s w h = record {
    lead_back = Sound-LeadBack os k s.metas w h;
    reported = λ events e.
        let (d, on) = works.epoll_wait_reports (epoll_add_all os fds w) events e in
        (
          d,
          All-map _ _ events
              (λ fd r. elim (epoll_add_all_watched os k works fds w fd r) [
                | inl added ↦ added
                | inr before ↦ absurd (not_both os k (h.unwatched fd) before)
              ])
              on,
        );
  }
    where
      fds : List ℤ
      fds = all_fds (collect_fds s.metas)

  abbrev pub SoundNext : Next × Loop × World → Type 0
  SoundNext (next, s, w) = next ≢ return_error → Sound os k s.metas w

  -- The descriptors that were added go off the list at the end of the round.
  clean_up :
      (s s' : Loop) (fds : List ℤ) (w w2 w3 : World)
      → Sound os k s.metas w
      → Calm os k (epoll_add_all os fds w) w2
      → Keeps os k s.metas w2 s'.metas w3
      → Sound os k s'.metas (epoll_delete_all os fds w3)
  clean_up s s' fds w w2 w3 h c e =
      let off = epoll_delete_all-Calm os k works fds w3 in
      record {
        live = λ d. omega (
          arith,
          h.live d,
          epoll_add_all_stays os k works fds w d,
          c.stays d,
          e.slack d,
          off.stays d,
        );
        wired = e.wired h.wired;
        unwatched = λ fd. elim (Bool-cases (k.watched (epoll_delete_all os fds w3) fd)) [
          | inr no_more ↦ no_more
          | inl on ↦
              let added = c.quiet fd (e.quiet fd (off.quiet fd on)) in
              absurd (elim (epoll_add_all_watched os k works fds w fd added) [
                | inl listed ↦
                    not_both os k (epoll_delete_all_watched os k works fds w3 fd on) listed
                | inr before ↦ not_both os k (h.unwatched fd) before
              ])
        ];
      }

  pub poll_clients-Sound :
      (out_fd : Option Stream) (s : Loop) (w : World)
      → Sound os k s.metas w
      → Ensures (poll_clients os out_fd s w) SoundNext
  unfolding poll_clients epoll_add_all
  poll_clients-Sound out_fd s w h = polled (all_fds (collect_fds s.metas)) refl
    where
      all : List ℤ
      all = all_fds (collect_fds s.metas)

      w2 : World
      w2 = (epoll_wait (epoll_add_all os all w)).1

      further :
          (next : Next) (s' : Loop) (w3 : World)
          → Keeps os k s.metas w2 s'.metas w3
          → Ensures {A = Next × Loop × World}
              (elim next [
                | return_error ↦ ok (return_error, s', w3)
                | _ ↦ ok (main_loop_end, s', epoll_delete_all os all w3)
              ])
              SoundNext
      further return_error s' w3 e = λ ends. absurd (ends refl)
      further next_item s' w3 e = λ ends. clean_up s s' all w w2 w3 h (works.epoll_wait_calm _) e
      further same_index s' w3 e = λ ends. clean_up s s' all w w2 w3 h (works.epoll_wait_calm _) e
      further main_loop_end s' w3 e =
          λ ends. clean_up s s' all w w2 w3 h (works.epoll_wait_calm _) e

      polled :
          (l : List ℤ)
          → all ≡ l
          → Ensures {A = Next × Loop × World}
              (elim l [
                | [] ↦ ok (main_loop_end, s, epoll_add_all os all w)
                | fd ∷ more ↦ (do
                  (next, s', w3) ←
                      after_wait os out_fd
                        (collect_fds s.metas)
                        (epoll_wait (epoll_add_all os all w)).0
                        s
                        w2
                  elim next [
                    | return_error ↦ ok (return_error, s', w3)
                    | _ ↦ ok (main_loop_end, s', epoll_delete_all os all w3)
                  ])
              ])
              SoundNext
      polled [] e = λ ends. subst (λ l. Sound os k s.metas (epoll_add_all os l w)) (sym e) h
      polled (fd ∷ more) e =
          Ensures-bind (KeptNext os k works s w2) SoundNext
            (after_wait os out_fd (collect_fds s.metas) (epoll_wait (epoll_add_all os all w)).0 s
              w2)
            _ (after_wait-Keeps os k works out_fd _ _ s w2) λ r q. further r.0 r.1 r.2 q

  -- A round that returns, and not by the error return, leaves every connection with a descriptor of
  -- its own, and the list of epoll empty, as it found them.
  pub main_loop_round-Sound :
      (out_fd : Option Stream) (s : Loop) (w : World)
      → Sound os k s.metas w
      → Ensures (main_loop_round os out_fd s w) SoundNext
  unfolding main_loop_round
  main_loop_round-Sound out_fd s w h =
      Ensures-bind (KeptNext os k works s w) SoundNext (prepare_round os s w) _
        (prepare_round-Keeps os k works s w)
        λ r e. further r.0 r.1 r.2 (Keeps-Sound os k s.metas r.1.metas w r.2 e h)
    where
      further :
          (next : Next) (s' : Loop) (w' : World)
          → Sound os k s'.metas w'
          → Ensures {A = Next × Loop × World}
              (elim next [ next_item ↦ poll_clients os out_fd s' w' | stop ↦ ok (stop, s', w') ])
              SoundNext
      further next_item s' w' q = poll_clients-Sound out_fd s' w' q
      further same_index s' w' q = λ ends. q
      further main_loop_end s' w' q = λ ends. q
      further return_error s' w' q = λ ends. q
