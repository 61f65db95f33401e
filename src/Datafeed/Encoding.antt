-- ===== src/Datafeed/Encoding.antt =====
-- An encoding of the messages of the datafeed, which satisfies the law that the theorems on
-- datafeed/dbservice.cpp suppose of protobuf.
use bftrader.Prelude.{ℕ, zero, suc, true, Option, none, some, List, [], ◌∷◌, ◌≡◌, refl, Text}
use bftrader.Proto.{BfTickData}
use bftrader.Datafeed.Numbers.{
  period_number, period_of_number, period_of_number-period_number, product_number,
  product_of_number, product_of_number-product_number,
}
use bftrader.Datafeed.Messages.{BfBarData, BfContractData}
use bftrader.Datafeed.Store.{Codec, IsCodec}

-- Each text ends with 0, and its units are counted from 1.
abbrev pub marked : Text → Text → Text
marked [] rest = 0 ∷ rest
marked (c ∷ s) rest = suc c ∷ marked s rest

abbrev pub packed : List Text → Text
packed [] = []
packed (s ∷ ss) = marked s (packed ss)

abbrev pub grown : ℕ → List Text → List Text
grown c [] = []
grown c (s ∷ ss) = (c ∷ s) ∷ ss

abbrev pub unpacked : Text → List Text
unpacked [] = []
unpacked (zero ∷ s) = [] ∷ unpacked s
unpacked (suc c ∷ s) = grown c (unpacked s)

pub unpacked-marked : (s rest : Text) → unpacked (marked s rest) ≡ s ∷ unpacked rest
unpacked-marked [] rest = refl
unpacked-marked (c ∷ s) rest = rw (unpacked-marked s rest) refl

pub unpacked-packed : (ss : List Text) → unpacked (packed ss) ≡ ss
unpacked-packed [] = refl
unpacked-packed (s ∷ ss) = rw (unpacked-marked s (packed ss)) (rw (unpacked-packed ss) refl)

abbrev pub tick_fields : BfTickData → List Text
tick_fields t =
    t.symbol
    ∷ t.exchange
    ∷ t.actiondate
    ∷ t.ticktime
    ∷ (t.lastprice ∷ [])
    ∷ (t.volume ∷ [])
    ∷ (t.openinterest ∷ [])
    ∷ (t.lastvolume ∷ [])
    ∷ (t.openprice ∷ [])
    ∷ (t.highprice ∷ [])
    ∷ (t.lowprice ∷ [])
    ∷ (t.precloseprice ∷ [])
    ∷ (t.upperlimit ∷ [])
    ∷ (t.lowerlimit ∷ [])
    ∷ (t.bidprice1 ∷ [])
    ∷ (t.askprice1 ∷ [])
    ∷ (t.bidvolume1 ∷ [])
    ∷ (t.askvolume1 ∷ [])
    ∷ []

abbrev pub tick_of : List Text → Option BfTickData
tick_of
      (symbol
        ∷ exchange
        ∷ actiondate
        ∷ ticktime
        ∷ (lastprice ∷ [])
        ∷ (volume ∷ [])
        ∷ (openinterest ∷ [])
        ∷ (lastvolume ∷ [])
        ∷ (openprice ∷ [])
        ∷ (highprice ∷ [])
        ∷ (lowprice ∷ [])
        ∷ (precloseprice ∷ [])
        ∷ (upperlimit ∷ [])
        ∷ (lowerlimit ∷ [])
        ∷ (bidprice1 ∷ [])
        ∷ (askprice1 ∷ [])
        ∷ (bidvolume1 ∷ [])
        ∷ (askvolume1 ∷ [])
        ∷ []) =
    some (record {
      symbol = symbol;
      exchange = exchange;
      actiondate = actiondate;
      ticktime = ticktime;
      lastprice = lastprice;
      volume = volume;
      openinterest = openinterest;
      lastvolume = lastvolume;
      openprice = openprice;
      highprice = highprice;
      lowprice = lowprice;
      precloseprice = precloseprice;
      upperlimit = upperlimit;
      lowerlimit = lowerlimit;
      bidprice1 = bidprice1;
      askprice1 = askprice1;
      bidvolume1 = bidvolume1;
      askvolume1 = askvolume1;
    })
tick_of _ = none

abbrev pub bar_fields : BfBarData → List Text
bar_fields b =
    b.symbol
    ∷ b.exchange
    ∷ (period_number b.period ∷ [])
    ∷ b.actiondate
    ∷ b.bartime
    ∷ (b.volume ∷ [])
    ∷ (b.openinterest ∷ [])
    ∷ (b.lastvolume ∷ [])
    ∷ (b.openprice ∷ [])
    ∷ (b.highprice ∷ [])
    ∷ (b.lowprice ∷ [])
    ∷ (b.closeprice ∷ [])
    ∷ []

abbrev pub bar_of : List Text → Option BfBarData
bar_of
      (symbol
        ∷ exchange
        ∷ (period ∷ [])
        ∷ actiondate
        ∷ bartime
        ∷ (volume ∷ [])
        ∷ (openinterest ∷ [])
        ∷ (lastvolume ∷ [])
        ∷ (openprice ∷ [])
        ∷ (highprice ∷ [])
        ∷ (lowprice ∷ [])
        ∷ (closeprice ∷ [])
        ∷ []) =
    some (record {
      symbol = symbol;
      exchange = exchange;
      period = period_of_number period;
      actiondate = actiondate;
      bartime = bartime;
      volume = volume;
      openinterest = openinterest;
      lastvolume = lastvolume;
      openprice = openprice;
      highprice = highprice;
      lowprice = lowprice;
      closeprice = closeprice;
    })
bar_of _ = none

abbrev pub contract_fields : BfContractData → List Text
contract_fields c =
    c.symbol
    ∷ c.exchange
    ∷ c.name
    ∷ (product_number c.productclass ∷ [])
    ∷ (c.volumemultiple ∷ [])
    ∷ (c.pricetick ∷ [])
    ∷ (c.maxlimit ∷ [])
    ∷ (c.minlimit ∷ [])
    ∷ (c.maxmarket ∷ [])
    ∷ (c.minmarket ∷ [])
    ∷ []

abbrev pub contract_of : List Text → Option BfContractData
contract_of
      (symbol
        ∷ exchange
        ∷ name
        ∷ (productclass ∷ [])
        ∷ (volumemultiple ∷ [])
        ∷ (pricetick ∷ [])
        ∷ (maxlimit ∷ [])
        ∷ (minlimit ∷ [])
        ∷ (maxmarket ∷ [])
        ∷ (minmarket ∷ [])
        ∷ []) =
    some (record {
      symbol = symbol;
      exchange = exchange;
      name = name;
      productclass = product_of_number productclass;
      volumemultiple = volumemultiple;
      pricetick = pricetick;
      maxlimit = maxlimit;
      minlimit = minlimit;
      maxmarket = maxmarket;
      minmarket = minmarket;
    })
contract_of _ = none

abbrev pub ticks : Codec BfTickData
ticks = record {
  serializes = λ m. true;
  bytes = λ m. packed (tick_fields m);
  parse = λ s. tick_of (unpacked s);
}

pub ticks_law : IsCodec ticks
ticks_law = record {
  serializes_law = λ m. refl;
  parse_law = λ t. rw (unpacked-packed (tick_fields t)) (refl);
}

abbrev pub bars : Codec BfBarData
bars = record {
  serializes = λ m. true;
  bytes = λ m. packed (bar_fields m);
  parse = λ s. bar_of (unpacked s);
}

pub bars_law : IsCodec bars
bars_law = record {
  serializes_law = λ m. refl;
  parse_law =
      λ b. rw (unpacked-packed (bar_fields b)) (rw (period_of_number-period_number b.period) refl);
}

abbrev pub contracts : Codec BfContractData
contracts = record {
  serializes = λ m. true;
  bytes = λ m. packed (contract_fields m);
  parse = λ s. contract_of (unpacked s);
}

pub contracts_law : IsCodec contracts
contracts_law = record {
  serializes_law = λ m. refl;
  parse_law = λ c.
      rw (unpacked-packed (contract_fields c))
        (rw (product_of_number-product_number c.productclass) refl);
}
