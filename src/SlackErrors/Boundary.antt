-- ===== src/SlackErrors/Boundary.antt =====
-- How the block of `send_errors_to_slack` in src/scheduling_util/_send_errors_to_slack.py ends, and
-- what is posted.
use scheduling_util_py.Prelude.{
  ◌≡◌, refl, ◌↔◌, Bool, true, ◌&&◌, not, String, Option, none, some, List, ◌∷◌, if◌then◌else◌,
  Exception, is_exception, Result, return, raise, Action, arith,
}
use scheduling_util_py.Prelude.Int.{ℤ}
use scheduling_util_py.RateLimiter.{ping_if_ready}
use scheduling_util_py.RateLimiter.Spacing.{Ready, ping_if_ready-Ready}
use scheduling_util_py.SlackErrors.{
  SlackBoundary, SlackState, SlackClient, post_if_ready, to_webhook, handle_error, error_line,
  send_errors_to_slack, end_block,
}

-- `requests.post` raises nothing that `except Exception` does not catch.
abbrev pub RaisesErrors : SlackClient → Type 0
RaisesErrors client =
    (posts : List (String × Exception)) (e : Exception)
    → client posts ≡ some e
    → is_exception e ≡ true

-- The end of the block, for the code around it.
abbrev pub block_end : Bool → Result (Unit {0}) → Result (Unit {0})
block_end reraise (return _) = return tt
block_end reraise (raise e) = if is_exception e && not reraise then return tt else raise e

module _ (client : SlackClient) (from_timestamp : ℤ → ℤ) where
  post-returns :
      (url : String) (now touched : ℤ) (e : Exception) (k : SlackState)
      → RaisesErrors client
      → (post_if_ready client from_timestamp url now touched e k).0 ≡ return tt
  unfolding post_if_ready
  post-returns url now touched e k c = grind (arith, c ((url, e) ∷ k.posts))

  to_webhook-returns :
      (url : Option String) (now touched : ℤ) (e : Exception) (k : SlackState)
      → RaisesErrors client
      → (to_webhook client from_timestamp url now touched e k).0 ≡ return tt
  unfolding to_webhook
  to_webhook-returns none now touched e k c = refl
  to_webhook-returns (some url) now touched e k c = post-returns url now touched e k c

  -- With a `requests.post` that raises only errors: whatever happens on the way to Slack, the context
  -- manager ends as its block does, except that an error is swallowed without `reraise`;
  -- `KeyboardInterrupt` and `SystemExit` always pass.
  pub send_errors-block_end :
      {S : Type 0} (b : SlackBoundary) (now touched : ℤ)
      (block : Action (S × SlackState) (Unit {0})) (s : S × SlackState)
      → RaisesErrors client
      → (send_errors_to_slack client from_timestamp b now touched block s).0
        ≡ block_end b.reraise (block s).0
  unfolding send_errors_to_slack handle_error
  send_errors-block_end {S} b now touched block s c = ends (block s).0 (block s).1
    where
      ends :
          (r : Result (Unit {0})) (s' : S × SlackState)
          → (end_block client from_timestamp b now touched r s').0 ≡ block_end b.reraise r
      ends (return _) s' = refl
      ends (raise e) (s', k) =
          let k' = if b.log_error then record k { log = error_line e ∷ k.log } else k in
          let r = to_webhook-returns b.slack_webhook now touched e k' c in ground arith

  end_block-state :
      {S : Type 0} (b : SlackBoundary) (now touched : ℤ) (r : Result (Unit {0}))
      (s : S × SlackState)
      → (end_block client from_timestamp b now touched r s).1.0 ≡ s.0
  end_block-state b now touched (return _) s = refl
  end_block-state b now touched (raise e) s = ground arith

  -- The context manager itself changes the Slack state alone.
  pub send_errors-state :
      {S : Type 0} (b : SlackBoundary) (now touched : ℤ)
      (block : Action (S × SlackState) (Unit {0})) (s : S × SlackState)
      → (send_errors_to_slack client from_timestamp b now touched block s).1.0 ≡ (block s).1.0
  unfolding send_errors_to_slack
  send_errors-state b now touched block s = end_block-state b now touched (block s).0 (block s).1

  -- The posts behind the block.
  abbrev with_post :
      Option String → Exception → List (String × Exception) → List (String × Exception)
  with_post none e posts = posts
  with_post (some url) e posts = (url, e) ∷ posts

  abbrev pub posts_after :
      Option String
      → Bool
      → Result (Unit {0})
      → List (String × Exception)
      → List (String × Exception)
  posts_after url ready (return _) posts = posts
  posts_after url ready (raise e) posts =
      if is_exception e && ready then with_post url e posts else posts

  post-posts :
      (url : String) (now touched : ℤ) (e : Exception) (k : SlackState)
      → (post_if_ready client from_timestamp url now touched e k).1.posts ≡ (
          if (ping_if_ready from_timestamp now touched k.limiter k.files).0
          then (url, e) ∷ k.posts
          else k.posts)
  unfolding post_if_ready
  post-posts url now touched e k = grind arith

  to_webhook-posts :
      (url : Option String) (now touched : ℤ) (e : Exception) (k : SlackState)
      → (to_webhook client from_timestamp url now touched e k).1.posts ≡ (
          if (ping_if_ready from_timestamp now touched k.limiter k.files).0
          then with_post url e k.posts
          else k.posts)
  unfolding to_webhook
  to_webhook-posts none now touched e k = ground arith
  to_webhook-posts (some url) now touched e k = post-posts url now touched e k

  end_block-posts :
      {S : Type 0} (b : SlackBoundary) (now touched : ℤ) (r : Result (Unit {0})) (s : S)
      (k : SlackState)
      → (end_block client from_timestamp b now touched r (s, k)).1.1.posts
        ≡ posts_after b.slack_webhook
            (ping_if_ready from_timestamp now touched k.limiter k.files).0
            r
            k.posts
  unfolding handle_error
  end_block-posts b now touched (return _) s k = refl
  end_block-posts b now touched (raise e) s k =
      let k' = if b.log_error then record k { log = error_line e ∷ k.log } else k in
      let posted = to_webhook-posts b.slack_webhook now touched e k' in ground arith

  -- Behind the block there is one more post, of the error that the block raised, exactly if it raised
  -- an error, there is a webhook, and the limiter is ready; nothing else is posted.
  pub send_errors-posts :
      {S : Type 0} (b : SlackBoundary) (now touched : ℤ)
      (block : Action (S × SlackState) (Unit {0})) (s : S × SlackState)
      → let (r, left) = block s in
        let k = left.1 in
        (ready : Bool) × ((ready ≡ true) ↔ Ready from_timestamp now k.limiter k.files)
        × ((send_errors_to_slack client from_timestamp b now touched block s).1.1.posts
            ≡ posts_after b.slack_webhook ready r k.posts)
  unfolding send_errors_to_slack
  send_errors-posts b now touched block s =
      let (r, left) = block s in
      let k = left.1 in
      (
        (ping_if_ready from_timestamp now touched k.limiter k.files).0,
        (ping_if_ready-Ready from_timestamp now touched k.limiter k.files).0,
        end_block-posts b now touched r left.0 k,
      )
