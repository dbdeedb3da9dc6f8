-- ===== src/Examples/Pages.antt =====
-- The smallest programs: examples/example_request_processor.cpp, examples/example_hello_world.cpp,
-- examples/example_timer.cpp and test_examples/test_exception_in_request_handler.cpp.
use asyncgi.Examples.Http.{Asked, Response, page, status}
use asyncgi.Examples.Text.{equal}
use asyncgi.Response.Processor.{
  RequestProcessor, Returns, returns, responding, returning_http, done, threw, std_exception,
}
use asyncgi.Router.Decimal.{to_string}
use asyncgi.Common.{ℕ, ◌+◌, ◌++◌, if◌then◌else◌, text}

module _ {ℓ} {R : Type ℓ} (asked : Asked R) where
  -- guestBookPage of example_request_processor.cpp
  unfoldable pub empty_guest_book : R → Returns Response
  empty_guest_book r =
      if equal (asked.path r) (text "/")
      then returns (
          page (
            text
              "\n                <h1>Guest book</h1>\n                <p>No messages</p>\n            "))
      else returns (status 404)

module _ {ℓ} {R : Type ℓ} where
  -- The processor of example_hello_world.cpp
  unfoldable pub hello_world : RequestProcessor R Response
  hello_world = returning_http λ r. returns (page (text "Hello world"))

  -- The processor of test_exception_in_request_handler.cpp
  unfoldable pub cannot_respond : RequestProcessor R Response
  cannot_respond = responding λ r. done (threw (std_exception (text "Can't send a response")))

  -- Greeter of example_timer.cpp, and the callback of its timer
  unfoldable pub greeter : ℕ → R → Returns Response
  unfolding to_string
  greeter seconds_counter r =
      returns
        (page (text "Hello world\n(alive for " ++ to_string seconds_counter ++ text " seconds)"))

unfoldable pub count_second : ℕ → ℕ
count_second seconds_counter = seconds_counter + 1
