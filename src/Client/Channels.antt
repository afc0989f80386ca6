-- ===== src/Client/Channels.antt =====
-- The channels of a client, `IrcClient::channels` of src/irc/irc_client.cpp.
use biboumi.Base.{Bool, Option, none, some, List, Bytes, lookup, insert, erase, bytes_eq}
use biboumi.Irc.Channel.{IrcChannel, empty_channel}
use biboumi.Utils.Strings.{tolower}
use biboumi.World.{World, with_client}

unfoldable pub put_channels : List (Bytes × IrcChannel) → World → World
put_channels channels w = with_client (λ c. record c { channels = channels }) w

-- Writing through the pointer that `get_channel` returned; the name is in lower case.
unfoldable pub put_channel : Bytes → IrcChannel → World → World
unfolding put_channels
put_channel name chan w = put_channels (insert name chan w.client.channels) w

unfoldable pub erase_channel : Bytes → World → World
unfolding put_channels
erase_channel n w = put_channels (erase (tolower n) w.client.channels) w

unfoldable pub find_channel : Bytes → World → Option IrcChannel
find_channel n w = lookup (tolower n) w.client.channels

-- `get_channel` makes the channel if there is none: the channel, and the state after the call.
unfoldable pub get_channel : Bytes → World → IrcChannel × World
unfolding find_channel put_channel
get_channel n w = elim (find_channel n w) [
  | some chan ↦ (chan, w)
  | none ↦ (empty_channel, put_channel (tolower n) empty_channel w)
]

unfoldable pub is_channel_joined : Bytes → World → Bool × World
unfolding get_channel
is_channel_joined name w = let (chan, w') = get_channel name w in (chan.joined, w')
