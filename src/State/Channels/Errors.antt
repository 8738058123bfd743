-- ===== src/State/Channels/Errors.antt =====
-- Which errors `Track` of pkg/state/state.go receives of those that the merge of
-- internal/channel/channel.go passes on.
use mathlib.Core.List.{append-nil, append_assoc}
use spegel.Base.{none, some, sym, ◌≡◌, ◌∙◌, ap, Option, List, ◌∷◌, [], ◌++◌, Error}
use spegel.Channel
use spegel.Channel.{Output, Move}
use spegel.Channel.Merging.{Interleaving, more, held}

-- What a goroutine of the merge sent and has still to send does not change by its steps.
Move-whole :
    {A : Type 0} {o p : Output A} {e : List A} (sent c : List A)
    → Move o e p
    → sent ++ (held o.hand ++ o.pending) ≡ c
    → (sent ++ e) ++ (held p.hand ++ p.pending) ≡ c
Move-whole sent c (Channel.receive n rest) h = ap (λ x. x ++ n ∷ rest) (append-nil sent) ∙ h
Move-whole sent c (Channel.send n rest) h = append_assoc sent (n ∷ []) rest ∙ h
Move-whole sent c Channel.finish h = append-nil (sent ++ []) ∙ h

-- The errors that were received are an interleaving of errors of `Subscribe`, with which the one
-- that is held makes all that were delivered, and of errors of containerd, which together with
-- those that are still to be sent are all of containerd's.
pub record Errors (relayed : Option Error) (at : Output Error) (delivered failures : List Error)
    (received : List Error) : Type 0 where
  pub own : List Error
  pub theirs : List Error
  pub both : Interleaving (own ∷ theirs ∷ []) received
  pub own_whole : own ++ held relayed ≡ delivered
  pub their_whole : theirs ++ (held at.hand ++ at.pending) ≡ failures

module _ {at : Output Error} {delivered failures received : List Error} where
  -- The goroutine that passes the errors of `Subscribe` on takes one.
  pub Errors-relayed :
      (e : Error)
      → Errors none at delivered failures received
      → Errors (some e) at (delivered ++ e ∷ []) failures received
  Errors-relayed e h = record {
    own = h.own;
    theirs = h.theirs;
    both = h.both;
    own_whole = ap (λ r. r ++ e ∷ []) (sym (append-nil h.own) ∙ h.own_whole);
    their_whole = h.their_whole;
  }

  -- It sends it.
  pub Errors-sent :
      (e : Error)
      → Errors (some e) at delivered failures received
      → Errors none at delivered failures (received ++ e ∷ [])
  Errors-sent e h = record {
    own = h.own ++ e ∷ [];
    theirs = h.theirs;
    both = more [] (h.theirs ∷ []) h.own (e ∷ []) received h.both;
    own_whole = append-nil (h.own ++ e ∷ []) ∙ h.own_whole;
    their_whole = h.their_whole;
  }

  -- The goroutine that passes containerd's errors on takes a step, with what it sends.
  pub Errors-moved :
      {relayed : Option Error} {o : Output Error} {sent : List Error}
      → Move at sent o
      → Errors relayed at delivered failures received
      → Errors relayed o delivered failures (received ++ sent)
  Errors-moved {sent} m h = record {
    own = h.own;
    theirs = h.theirs ++ sent;
    both = more (h.own ∷ []) [] h.theirs sent received h.both;
    own_whole = h.own_whole;
    their_whole = Move-whole h.theirs failures m h.their_whole;
  }
