-- ===== src/Datafeed/Keys.antt =====
-- datafeed/dbservice.cpp: the keys of the database. A text holds no zero character, so "%s" copies it
-- whole.
use bftrader.Prelude.{Text, lit, ◌++◌}
use bftrader.ProtoUtils.{BfBarPeriod, format_period}

abbrev pub tick_tail : Text → Text → Text → Text → Text
tick_tail symbol exchange date time =
    symbol ++ (lit "-" ++ (exchange ++ (lit "-" ++ (date ++ (lit "-" ++ time)))))

-- tick-symbol-exchange-actiondate-ticktime
unfoldable pub tick_key : Text → Text → Text → Text → Text
tick_key symbol exchange date time = lit "tick-" ++ tick_tail symbol exchange date time

-- tick-symbol-exchange+ and tick-symbol-exchange= stand before and after the ticks of a contract.
unfoldable pub first_tick_key : Text → Text → Text
first_tick_key symbol exchange = lit "tick-" ++ (symbol ++ (lit "-" ++ (exchange ++ lit "+")))

unfoldable pub last_tick_key : Text → Text → Text
last_tick_key symbol exchange = lit "tick-" ++ (symbol ++ (lit "-" ++ (exchange ++ lit "=")))

-- symbol-exchange-period-date-time, which follows the word for the kind of the record.
abbrev pub bar_tail : Text → Text → BfBarPeriod → Text → Text → Text
bar_tail symbol exchange period date time =
    symbol
    ++ (lit "-"
        ++ (exchange
            ++ (lit "-" ++ (format_period period ++ (lit "-" ++ (date ++ (lit "-" ++ time)))))))

abbrev pub bar_mark : Text → Text → BfBarPeriod → Text → Text
bar_mark symbol exchange period mark =
    symbol ++ (lit "-" ++ (exchange ++ (lit "-" ++ (format_period period ++ mark))))

-- bar-symbol-exchange-period-actiondate-bartime
unfoldable pub bar_key : Text → Text → BfBarPeriod → Text → Text → Text
bar_key symbol exchange period date time = lit "bar-" ++ bar_tail symbol exchange period date time

unfoldable pub first_bar_key : Text → Text → BfBarPeriod → Text
first_bar_key symbol exchange period = lit "bar-" ++ bar_mark symbol exchange period (lit "+")

unfoldable pub last_bar_key : Text → Text → BfBarPeriod → Text
last_bar_key symbol exchange period = lit "bar-" ++ bar_mark symbol exchange period (lit "=")

-- contract-symbol-exchange
unfoldable pub contract_key : Text → Text → Text
contract_key symbol exchange = lit "contract-" ++ (symbol ++ (lit "-" ++ exchange))
