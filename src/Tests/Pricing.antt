-- ===== src/Tests/Pricing.antt =====
-- Quotes of a sample cart, and amounts at the limit.
use ufsc_dso2_trabalho1_merc.Prelude.{[], ◌≡◌, refl, arith}
use ufsc_dso2_trabalho1_merc.Result.{Result, ok, err}
use ufsc_dso2_trabalho1_merc.Money.{money_from_minor}
use ufsc_dso2_trabalho1_merc.Pricing.{CheckoutQuote, quote_of, calculate_checkout_quote}
use ufsc_dso2_trabalho1_merc.Pricing.Totals.{IsQuote, calculate_checkout_quote-IsQuote}
use ufsc_dso2_trabalho1_merc.Pricing.Succeeds.{calculate_checkout_quote_succeeds}
use ufsc_dso2_trabalho1_merc.Tests.Fixtures.{home, quoted_cart, quote_hash}
use ufsc_dso2_trabalho1_merc.Tests.Runs.{checkout_run}

abbrev no_quote : CheckoutQuote
no_quote =
    quote_of "" home
      (record {
        id = "";
        label = "";
        estimate = "";
        shipping = money_from_minor "EUR" 0;
        shipping_minor = 0;
      })
      [] "EUR" 0 0

abbrev given : Result CheckoutQuote → CheckoutQuote
given (ok quote) = quote
given (err e) = no_quote

abbrev quoted : CheckoutQuote
quoted = given (calculate_checkout_quote quote_hash quoted_cart home "standard" "EUR")

calculate_checkout_quote-IsQuote_example : IsQuote quoted_cart "EUR" quoted
unfolding checkout_run
calculate_checkout_quote-IsQuote_example =
    calculate_checkout_quote-IsQuote quote_hash quoted_cart home "standard" "EUR" refl

calculate_checkout_quote_succeeds_example :
    (quote : CheckoutQuote) × (calculate_checkout_quote quote_hash quoted_cart home "standard" "EUR"
      ≡ ok quote)
    × (quote.pricing.total_minor ≡ 2049)
unfolding checkout_run
calculate_checkout_quote_succeeds_example =
    calculate_checkout_quote_succeeds quote_hash quoted_cart home "standard" "EUR" (λ e. cc e)
      ((refl, omega arith, refl), ((refl, omega arith, refl), tt)) refl (omega arith)
