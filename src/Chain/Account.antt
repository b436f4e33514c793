-- ===== src/Chain/Account.antt =====
-- The account of what has been listed and sent: it grows, and a new answer of the node opens it.
use dogecade.Common.{List, [], ap, inl, inr, refl, subst, sym, ℕ, ◌++◌, ◌∙◌, ◌∷◌, ◌≡◌}
use dogecade.Store.{Result, World, err, ok}
use dogecade.Deposits.{Event}
use dogecade.Chain.{Float64, ListSinceBlockResult, Pipeline, began, idle}
use dogecade.Chain.Run.{cursor_in}
use dogecade.Chain.Delivery.{
  Delivered, IsAccounted, IsBehind, events, listed, listed-append, listed_removed,
  listed_removed-append, sent, sent_removed,
}
use mathlib.Core.List.{append_assoc, append-nil}

module _ (go : Float64) where
  abbrev P : Type 0
  P = Pipeline go.Carrier

  -- What a step that leaves the cursor alone does.
  pub record Grows (s t : P) : Type 0 where
    pub same_cursor : cursor_in t.world.db ≡ cursor_in s.world.db
    pub new_polls : List (ListSinceBlockResult go.Carrier)
    pub polls_grow : t.polls ≡ s.polls ++ new_polls
    pub new_events : List Event
    pub sent_grow : sent go t ≡ sent go s ++ new_events
    pub new_removed : List Event
    pub removed_grow : sent_removed go t ≡ sent_removed go s ++ new_removed

  -- A step that only moves the loop, or changes other tables.
  pub quiet :
      (s t : P)
      → cursor_in t.world.db ≡ cursor_in s.world.db
      → t.polls ≡ s.polls
      → sent go t ≡ sent go s
      → sent_removed go t ≡ sent_removed go s
      → Grows s t
  quiet s t c p e r = record {
    same_cursor = c;
    new_polls = [];
    polls_grow = p ∙ sym (append-nil s.polls);
    new_events = [];
    sent_grow = e ∙ sym (append-nil (sent go s));
    new_removed = [];
    removed_grow = r ∙ sym (append-nil (sent_removed go s));
  }

module _ (go : Float64) (cursor : List ℕ) where
  abbrev Q : Type 0
  Q = Pipeline go.Carrier

  pub still_behind : (s t : Q) → Grows go s t → IsBehind go cursor s → IsBehind go cursor t
  still_behind s t g (inl h) = inl (g.same_cursor ∙ h)
  still_behind s t g (inr (before, l, later, rest, rest_removed, polls, at, ev, rm)) = inr (
    before,
    l,
    later ++ g.new_polls,
    rest ++ g.new_events,
    rest_removed ++ g.new_removed,
    g.polls_grow ∙ ap (λ ps. ps ++ g.new_polls) polls ∙ append_assoc before (l ∷ later) g.new_polls,
    g.same_cursor ∙ at,
    g.sent_grow
        ∙ ap (λ es. es ++ g.new_events) ev
        ∙ append_assoc (listed go (before ++ l ∷ [])) rest g.new_events,
    g.removed_grow
        ∙ ap (λ es. es ++ g.new_removed) rm
        ∙ append_assoc (listed_removed go (before ++ l ∷ [])) rest_removed g.new_removed,
  )

  pub began-Delivered :
      (r : Result (ListSinceBlockResult go.Carrier) × World) (s : Q)
      → s.watcher ≡ idle
      → r.1.db ≡ s.world.db
      → Delivered go cursor s
      → Delivered go cursor (began go r s)
  began-Delivered (err e, w) s at same d = record {
    accounted = d.accounted;
    behind =
        still_behind s (began go (err e, w) s)
          (quiet go s (began go (err e, w) s) (ap cursor_in same) refl refl refl) d.behind;
    fits = d.fits;
    removed_fits = d.removed_fits;
  }
  began-Delivered (ok l, w) s at same d = record {
    accounted = (
      listed-append go s.polls (l ∷ [])
          ∙ ap (λ es. es ++ (events go l.transactions ++ [])) (was.0 ∙ append-nil (sent go s))
          ∙ ap (λ es. sent go s ++ es) (append-nil (events go l.transactions)),
      listed_removed-append go s.polls (l ∷ [])
          ∙ ap (λ es. es ++ (events go l.removed ++ [])) (was.1 ∙ append-nil (sent_removed go s))
          ∙ ap (λ es. sent_removed go s ++ es) (append-nil (events go l.removed)),
      (s.polls, refl),
    );
    behind = still_behind s (began go (ok l, w) s) grows d.behind;
    fits = d.fits;
    removed_fits = d.removed_fits;
  }
    where
      was : IsAccounted go idle s
      was = subst (λ at. IsAccounted go at s) at d.accounted

      grows : Grows go s (began go (ok l, w) s)
      grows = record {
        same_cursor = ap cursor_in same;
        new_polls = l ∷ [];
        polls_grow = refl;
        new_events = [];
        sent_grow = sym (append-nil (sent go s));
        new_removed = [];
        removed_grow = sym (append-nil (sent_removed go s));
      }
